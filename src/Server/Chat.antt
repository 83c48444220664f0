-- ===== src/Server/Chat.antt =====
-- server/src/chat.rs: the chat of the server, `ServerChat`. A subscriber is the number of the channel
-- that its client reads. What is put on the channels is a part of the result, and whether a channel
-- takes it (its receiver is still there) is an argument: the channels are tokio's.
pub mod Component
pub mod History
pub mod Delivery
use protanki_protocol_rs.Common.{
  ℕ, Bool, true, false, Option, none, some, List, [], ◌∷◌, ◌++◌, length, ltb, if◌then◌else◌,
}
use protanki_protocol_rs.Common.Bytes.{Bytes}
use protanki_protocol_rs.Common.Text.{codes}
use protanki_protocol_rs.Common.Dict.{Dict, lookup, insert}
use protanki_protocol_rs.Protocol.Codec.Enums.Lobby.{ChatModeratorLevel}
use protanki_protocol_rs.Protocol.Codec.Structs.Users.{UserStatus}
use protanki_protocol_rs.Protocol.Codec.Structs.Lobby.{ChatMessage}

pub data ServerChatEvent : Type 0 where
  message : ChatMessage → ServerChatEvent
  message_history : List ChatMessage → ServerChatEvent

pub record ServerChat : Type 0 where
  pub subscriber : Dict ℕ
  pub message_history_length : ℕ
  pub history : List ChatMessage

-- What is put on a channel.
abbrev pub Delivery : Type 0
Delivery = ℕ × ServerChatEvent

abbrev pub development_warning : Bytes
development_warning =
    codes
      "The fost-server is under development.\nDo not expect all features to work properly.\n\nReport bugs: https://github.com/WolverinDEV/protanki-protocol-rs"

unfoldable pub new_chat : ServerChat
new_chat = record { subscriber = []; message_history_length = 100; history = [] }

-- `while history.len() > limit { history.pop_front() }`
unfoldable pub trim : ℕ → List ChatMessage → List ChatMessage
trim limit [] = []
trim limit (m ∷ ms) =
    let rest = trim limit ms in if ltb limit (length (m ∷ ms)) then rest else m ∷ ms

unfoldable pub system_message : Bytes → Bool → ChatMessage
system_message text warning = record {
  source_user_status = none;
  target_user_status = none;
  system = true;
  warning = warning;
  text = text;
}

unfoldable pub user_message : Bytes → Bytes → ChatMessage
user_message user_id text = record {
  source_user_status = some (record {
    chat_moderator_level = ChatModeratorLevel.none;
    ip = [];
    rank_index = 2;
    uid = user_id;
  });
  target_user_status = none;
  system = false;
  warning = false;
  text = text;
}

-- `subscriber.retain`: who takes the event stays, and has it.
unfoldable pub retain : (ℕ → Bool) → ServerChatEvent → Dict ℕ → Dict ℕ × List Delivery
retain takes event [] = ([], [])
retain takes event ((client_id, channel) ∷ subscriber) =
    let rest = retain takes event subscriber in
    if takes channel then ((client_id, channel) ∷ rest.0, (channel, event) ∷ rest.1) else rest

unfoldable pub dispatch_server_event :
    (ℕ → Bool) → ServerChat → ServerChatEvent → ServerChat × List Delivery
unfolding retain
dispatch_server_event takes chat event =
    let (subscriber, deliveries) = retain takes event chat.subscriber in
    (record chat { subscriber = subscriber }, deliveries)

-- The end of both functions that register a message.
unfoldable pub register_chat_message :
    (ℕ → Bool) → ServerChat → ChatMessage → ServerChat × List Delivery
unfolding dispatch_server_event trim
register_chat_message takes chat m =
    let (chat', deliveries) = dispatch_server_event takes chat (message m) in
    (
      record chat' { history = trim chat'.message_history_length (chat'.history ++ (m ∷ [])) },
      deliveries,
    )

unfoldable pub register_system_message :
    (ℕ → Bool) → ServerChat → Bytes → Bool → ServerChat × List Delivery
unfolding register_chat_message system_message
register_system_message takes chat text warning =
    register_chat_message takes chat (system_message text warning)

-- The target is not used.
unfoldable pub register_message :
    (ℕ → Bool) → ServerChat → Bytes → Option Bytes → Bytes → ServerChat × List Delivery
unfolding register_chat_message user_message
register_message takes chat user_id target_user_id text =
    register_chat_message takes chat (user_message user_id text)

-- The results of the two calls of `send` are ignored.
unfoldable pub send_message_history : (ℕ → Bool) → ServerChat → ℕ → List Delivery
unfolding lookup system_message
send_message_history takes chat client_id = elim (lookup client_id chat.subscriber) [
  | none ↦ []
  | some channel ↦
      if takes channel
      then (channel, message_history chat.history)
        ∷ (channel, message (system_message development_warning true))
        ∷ []
      else []
]
