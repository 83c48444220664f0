-- ===== src/Tests/ServerRuns.antt =====
-- Ranks, captchas and the packet registry at concrete inputs.
use protanki_protocol_rs.Common.{ℕ, ◌≡◌, ◌⊎◌, refl, true, false, inr, some, List, [], ◌∷◌}
use protanki_protocol_rs.Common.Bytes.{Bytes, bytes_eq}
use protanki_protocol_rs.Common.Dict.{lookup}
use protanki_protocol_rs.Protocol.Error.{ok, err, packet_unknown_id}
use protanki_protocol_rs.Protocol.Codec.Reader.{Reader}
use protanki_protocol_rs.Protocol.Codec.Enums.Lobby.{CaptchaLocation}
use protanki_protocol_rs.Protocol.Packets.{
  UnknownPacket, raw, PacketRegistry, new_registry, register_packet, decode, decode_registered,
  encode_unknown,
}
use protanki_protocol_rs.Protocol.Packets.Registration.{decode-register_packet, decode-unregistered}
use protanki_protocol_rs.Server.Loading.{
  LoadRequestState, enqueued, finished, ClientResources, register_resources, new_resources,
  on_registered,
}
use protanki_protocol_rs.Server.Loading.Progress.{
  IsMoving, LoadEvent, awaits, answered, run, run-IsMoving,
}
use protanki_protocol_rs.Server.Rank.{Rank, from_score}
use protanki_protocol_rs.Server.Rank.Highest.{IsHighest, from_score-IsHighest}
use protanki_protocol_rs.Server.Captcha.{
  invalid, pending, solved, CaptchaProvider, CaptchaRequest, validate_captcha, state_at, set_state,
  new_provider, solved_for, on_packet, captcha_code, location_key,
}
use protanki_protocol_rs.Server.Captcha.Solving.{solved_for_once, solved_by_code}

from_score-IsHighest_example : (r : Rank) × (from_score 1499999 ≡ some r) × IsHighest 1499999 r
from_score-IsHighest_example = from_score-IsHighest 1499999

corporal : from_score 1500 ≡ some Rank.corporal
unfolding from_score
corporal = refl

abbrev byte : Reader ℕ
byte bytes = ok (7, bytes)

abbrev one_packet : PacketRegistry ℕ
one_packet = record { packets = (3, byte) ∷ []; decode_as_unknown = false }

registered : register_packet new_registry 3 byte ≡ ok one_packet
unfolding register_packet new_registry
registered = refl

decode-register_packet_example : decode one_packet 3 ≡ decode_registered byte
decode-register_packet_example = decode-register_packet new_registry one_packet 3 byte registered 3

decode-unregistered_example :
    ((one_packet.decode_as_unknown ≡ false)
      × (decode one_packet 4 (1 ∷ []) ≡ err (packet_unknown_id 4)))
    ⊎ ((one_packet.decode_as_unknown ≡ true)
        × (u : UnknownPacket) × (decode one_packet 4 (1 ∷ []) ≡ ok (raw u, []))
        × (u.packet_id ≡ 4)
        × (encode_unknown u ≡ ok (1 ∷ [])))
unfolding lookup
decode-unregistered_example = decode-unregistered one_packet 4 (1 ∷ []) refl

abbrev solved_provider : CaptchaProvider
solved_provider = set_state new_provider CaptchaLocation.register_form solved

solved_for_once_example :
    ((solved_for
        (solved_for solved_provider CaptchaLocation.register_form).0
        CaptchaLocation.register_form).1
      ≡ false)
    × (state_at
          (solved_for solved_provider CaptchaLocation.register_form).0
          CaptchaLocation.register_form
        ≡ some invalid)
unfolding state_at set_state new_provider solved_for
solved_for_once_example =
    solved_for_once solved_provider CaptchaLocation.register_form solved refl refl

abbrev pending_provider : CaptchaProvider
pending_provider = set_state new_provider CaptchaLocation.register_form (pending captcha_code)

abbrev answer : CaptchaRequest
answer = validate_captcha CaptchaLocation.register_form captcha_code

solved_by_code_example :
    (state_at pending_provider CaptchaLocation.register_form ≡ some solved)
    ⊎ ((m : CaptchaLocation) × (code : Bytes) × (answer ≡ validate_captcha m code)
        × (location_key m ≡ location_key CaptchaLocation.register_form)
        × (state_at pending_provider m ≡ some (pending code)))
unfolding state_at set_state new_provider on_packet bytes_eq
solved_by_code_example =
    solved_by_code [] pending_provider answer CaptchaLocation.register_form refl

abbrev loading : ClientResources
loading = record {
  requests =
      record { id = 1; stage = 0; state = LoadRequestState.pending 2; finish_listener = 9 ∷ [] }
      ∷ record { id = 2; stage = 1; state = enqueued []; finish_listener = [] }
      ∷ [];
  request_id = 2;
  request_pending = true;
}

abbrev loaded : ClientResources
loaded = record {
  requests =
      record { id = 1; stage = 0; state = finished 3; finish_listener = [] }
      ∷ record { id = 2; stage = 1; state = LoadRequestState.pending 5; finish_listener = [] }
      ∷ [];
  request_id = 2;
  request_pending = true;
}

on_registered_run : on_registered loading 5 1 ≡ inr (loaded, register_resources 2 [] ∷ [], 9 ∷ [])
unfolding on_registered
on_registered_run = refl

-- Two stages are asked for, and the client answers the first request, and one that was never made.
abbrev load_events : List LoadEvent
load_events = awaits 0 1 (123 ∷ 125 ∷ []) 7 ∷ awaits 1 2 [] 8 ∷ answered 5 1 ∷ answered 6 9 ∷ []

run-IsMoving_example : IsMoving (run new_resources load_events)
run-IsMoving_example = run-IsMoving load_events
