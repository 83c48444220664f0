-- ===== src/Tests/Sessions.antt =====
-- The session of client-utils/src/session.rs and its handlers at concrete inputs.
use protanki_protocol_rs.Common.{
  ℕ, ◌+◌, ◌≡◌, false, Option, some, none, [], ◌∷◌, ltb, if◌then◌else◌,
}
use protanki_protocol_rs.Common.Bytes.{Bytes}
use protanki_protocol_rs.Protocol.Crypto.{CipherMode}
use protanki_protocol_rs.Protocol.Packets.{Packet}
use protanki_protocol_rs.Protocol.Connection.Polling.{received}
use protanki_protocol_rs.Server.Run.{Returns}
use protanki_protocol_rs.Server.Client.Polling.{SocketAnswers}
use protanki_protocol_rs.ClientUtils.Handlers.{
  call_register, Visited, HandlerPoll, waiting, finished,
}
use protanki_protocol_rs.ClientUtils.Handlers.Awaiting.{
  handle_matching_all, new_matching, poll_matching, handle_matching_all-first_match,
}
use protanki_protocol_rs.ClientUtils.Session.{Session, Shared, poll_connection}
use protanki_protocol_rs.ClientUtils.Session.Ending.{IsOver, session_poll-Returns}
use protanki_protocol_rs.Tests.Order.{big_endian}
use protanki_protocol_rs.Tests.Connections.{end_of, frame}

-- A handler that counts the packets, and fails on each.
abbrev failing : Packet Bytes → ℕ → Shared Bytes ℕ → Visited ℕ (Shared Bytes ℕ) (Option ℕ)
failing p h s = record {
  visited = h;
  session = (s.0, s.1 + 1);
  calls = call_register 9 ∷ [];
  returned = some 3;
}

abbrev idle : ℕ → Shared Bytes ℕ → Visited ℕ (Shared Bytes ℕ) (HandlerPoll ℕ)
idle h s = record { visited = h; session = s; calls = []; returned = waiting }

abbrev a_session : Session Bytes ℕ ℕ
a_session = record {
  language_code = [];
  connection = end_of CipherMode.client;
  packet_handler = record {
    handler = (1, 5) ∷ [];
    handler_index = 1;
    pending_handler_updates = [];
  };
  disconnected = false;
  components = 0;
}

-- The socket is closed after a part of a frame.
abbrev closing_socket : SocketAnswers
closing_socket = ([], received (1 ∷ 2 ∷ []) ∷ received [] ∷ []) ∷ ([], received frame ∷ []) ∷ []

session_poll-Returns_example :
    Returns (IsOver a_session) (poll_connection failing idle 2 a_session closing_socket [])
session_poll-Returns_example = session_poll-Returns failing idle a_session closing_socket []

-- Matches the numbers above 4.
abbrev above_four : ℕ → Option ℕ
above_four n = if ltb 4 n then some (n + n) else none

handle_matching_all-first_match_example :
    let h = handle_matching_all above_four new_matching (1 ∷ 6 ∷ 7 ∷ []) in
    (h.sent ≡ some 12) × (poll_matching h false ≡ finished)
handle_matching_all-first_match_example =
    handle_matching_all-first_match above_four (1 ∷ 6 ∷ 7 ∷ [])
