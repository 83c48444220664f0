-- ===== src/ClientUtils/Handlers/Answers.antt =====
-- client-utils/src/handler.rs: the handlers that answer one packet with another, `LowLevelPing`,
-- `SessionPing` and `DummyResourceLoader`. The connection that sends is a parameter, and the time since
-- the session has started an argument, in milliseconds; a signed number is its bits.
use protanki_protocol_rs.Common.{ℕ, ◌%◌, ◌^◌, Option, none, some, ◌⊎◌, inr}

-- The packets that these handlers look at, with the fields that they read.
pub data AnsweredPacket : Type 0 where
  ping_measure_ping : AnsweredPacket
  server_session_sync : (server_session_time : ℕ) → AnsweredPacket
  register_resources : (callback_id : ℕ) → AnsweredPacket
  other_packet : AnsweredPacket

pub data Answer : Type 0 where
  ping_measure_pong : Answer
  server_session_sync_response : (client_session_time server_session_time : ℕ) → Answer
  resources_registered : (callback_id : ℕ) → Answer

-- `elapsed().as_millis() as i32`
unfoldable pub session_timestamp : ℕ → ℕ
session_timestamp elapsed = elapsed % 2 ^ 32

unfoldable pub low_level_ping : AnsweredPacket → Option Answer
low_level_ping ping_measure_ping = some ping_measure_pong
low_level_ping _ = none

unfoldable pub session_ping : ℕ → AnsweredPacket → Option Answer
unfolding session_timestamp
session_ping elapsed (server_session_sync server_session_time) =
    some (server_session_sync_response (session_timestamp elapsed) server_session_time)
session_ping elapsed _ = none

unfoldable pub dummy_resource_loader : AnsweredPacket → Option Answer
dummy_resource_loader (register_resources callback_id) = some (resources_registered callback_id)
dummy_resource_loader _ = none

module _ {S E : Type 0} (send : Answer → S → E ⊎ S) where
  -- What each `handle_packet` does with its answer.
  unfoldable pub send_answer : Option Answer → S → E ⊎ S
  send_answer none session = inr session
  send_answer (some answer) session = send answer session
