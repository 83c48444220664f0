-- ===== src/Tests/Clients.antt =====
-- The chat, the tasks and the clients of the server, and the handlers of a session, at concrete inputs.
use protanki_protocol_rs.Common.{
  ℕ, zero, suc, ◌+◌, ◌≤◌, ◌≡◌, refl, arith, Bool, true, false, Option, some, none, List, [], ◌∷◌,
  ◌++◌, map, All,
}
use protanki_protocol_rs.Common.Bytes.{Bytes}
use protanki_protocol_rs.Protocol.Codec.Structs.Lobby.{ChatMessage}
use protanki_protocol_rs.Protocol.Crypto.{CipherMode}
use protanki_protocol_rs.Protocol.Connection.Polling.{received, poll_next}
use protanki_protocol_rs.Protocol.Connection.Progress.{Ends, poll_next-Ends}
use protanki_protocol_rs.Server.Chat.{ServerChat, system_message, user_message, development_warning}
use protanki_protocol_rs.Server.Chat.Component.{
  ServerChatComponent, event, new_component, subscribe,
}
use protanki_protocol_rs.Server.Chat.Component
use protanki_protocol_rs.Server.Chat.History.{register_all, last, register_all-history}
use protanki_protocol_rs.Server.Chat.Delivery.{on_channel, shown, subscribe-shown}
use protanki_protocol_rs.Server.Tasks.{Tasks, Polled, keep, poll_rounds}
use protanki_protocol_rs.Server.Tasks.Rounds.{IsPending, total, cost, poll-ends}
use protanki_protocol_rs.Server.Run.{Returns}
use protanki_protocol_rs.Server.Client.{
  Client, send, close, Handled, opened, unauthenticated, visit_components,
}
use protanki_protocol_rs.Server.Client.Later.{Later, level}
use protanki_protocol_rs.Server.Client.Closing.{visit_components-Later}
use protanki_protocol_rs.Server.Client.Polling.{SocketAnswers, poll_connection}
use protanki_protocol_rs.Server.Client.Ending.{poll_connection-ends}
use protanki_protocol_rs.ClientUtils.Handlers.{
  PacketHandlerRegistry, call_register, call_remove, call_registry_all, Visited, handle,
  commit_post_handle_updates,
}
use protanki_protocol_rs.ClientUtils.Handlers.Deferral.{collect, handle-calls}
use protanki_protocol_rs.Tests.Order.{big_endian}
use protanki_protocol_rs.Tests.Connections.{text_id, text_encode, end_of, hello, frame}

abbrev first_message : ChatMessage
first_message = system_message (1 ∷ []) false

abbrev second_message : ChatMessage
second_message = system_message (2 ∷ []) false

abbrev third_message : ChatMessage
third_message = user_message (7 ∷ []) (3 ∷ [])

abbrev short_chat : ServerChat
short_chat = record { subscriber = []; message_history_length = 2; history = first_message ∷ [] }

abbrev posts : List ((ℕ → Bool) × ChatMessage)
posts = ((λ _. true), second_message) ∷ ((λ _. true), third_message) ∷ []

register_all-history_example :
    (register_all short_chat posts).0.history
    ≡ last 2 (first_message ∷ second_message ∷ third_message ∷ [])
register_all-history_example = register_all-history short_chat posts (omega arith)

subscribe-shown_example :
    let s = subscribe new_component short_chat 5 1 in
    shown
      (Component.poll s.0 (map (λ e. event e) (on_channel 5 (s.2 ++ (register_all s.1 posts).1)))).1
    ≡ first_message ∷ system_message development_warning true ∷ second_message ∷ third_message ∷ []
subscribe-shown_example = subscribe-shown new_component short_chat 5 1 posts refl (refl, (refl, tt))

-- A task counts down, in a task of its own for each number, and waits at the end.
abbrev count : ℕ → ℕ → Polled ℕ ℕ
count zero s = record { left = some 0; state = s; enqueued = [] }
count (suc n) s = record { left = none; state = s + 1; enqueued = n ∷ [] }

abbrev counters : Tasks ℕ
counters = record { tasks = 2 ∷ 1 ∷ []; new_tasks = []; waker = false; is_borrowed = false }

count-lighter :
    (t : ℕ) (s : ℕ)
    → total (λ n. n) (keep (count t s).left []) + cost (λ n. n) (count t s).enqueued ≤ t
count-lighter zero s = omega arith
count-lighter (suc n) s = omega arith

poll-ends_example :
    (r : Tasks ℕ × ℕ) × (poll_rounds count 4 counters 0 ≡ some r)
    × (r.0.new_tasks ≡ [])
    × All (IsPending count (λ n. n)) r.0.tasks
poll-ends_example = poll-ends count (λ n. n) 4 counters 0 count-lighter refl (omega arith)

-- A component that counts, answers, closes the client, answers again, and fails.
abbrev pub clumsy : ℕ → Client Bytes ℕ ℕ → Handled Bytes ℕ ℕ
clumsy component c = record {
  component = component + 1;
  calls = send hello ∷ close true ∷ send hello ∷ [];
  is_ok = false;
}

abbrev pub a_client : Client Bytes ℕ ℕ
a_client = record {
  client_id = 1;
  server_events = true;
  issued = [];
  connection = end_of CipherMode.client;
  connection_state = opened;
  components = (0, 0) ∷ [];
  objects = (0, 5) ∷ [];
  next_object = 1;
  borrowed = none;
  language = [];
  tasks = record { tasks = []; new_tasks = []; waker = false; is_borrowed = false };
  waker = false;
  authentication_state = unauthenticated;
}

visit_components-Later_example :
    Returns (Later a_client) (visit_components text_id text_encode (λ text. text) clumsy a_client)
visit_components-Later_example =
    visit_components-Later text_id text_encode (λ text. text) (λ text. (text, refl)) clumsy a_client

abbrev frame_arrives : SocketAnswers
frame_arrives = ([], received frame ∷ []) ∷ []

poll_connection-ends_example :
    Returns
      (λ r. level opened ≤ level r.client.connection_state)
      (poll_connection text_id text_encode
        (λ text. text)
        (λ component c p. clumsy component c)
        clumsy
        (λ t c. (some t, []))
        20
        a_client
        frame_arrives
        [])
poll_connection-ends_example =
    poll_connection-ends text_id text_encode (λ text. text) (λ component c p. clumsy component c)
      clumsy (λ t c. (some t, [])) (λ text. (text, refl)) 20 a_client frame_arrives [] (omega arith)

poll_next-Ends_example :
    let r = poll_next (end_of CipherMode.client) [] (received frame ∷ []) in Ends 13 false r.0 r.1
poll_next-Ends_example = poll_next-Ends (end_of CipherMode.client) [] (received frame ∷ [])

-- A handler that registers another and removes itself.
abbrev once : ℕ → ℕ → Visited ℕ ℕ (Option ℕ)
once h s = record {
  visited = h;
  session = s + h;
  calls = call_register 9 ∷ call_remove 1 ∷ [];
  returned = none;
}

abbrev one_handler : PacketHandlerRegistry ℕ
one_handler = record { handler = (1, 5) ∷ []; handler_index = 1; pending_handler_updates = [] }

handle-calls_example : handle once one_handler 0 ≡ (
  call_registry_all false
      (commit_post_handle_updates one_handler)
      (call_register 9 ∷ call_remove 1 ∷ []),
  5,
  none,
)
unfolding collect
handle-calls_example = handle-calls once one_handler 0 refl
