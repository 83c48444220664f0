-- ===== src/Server/Chat/Component.antt =====
-- server/src/chat.rs: `ServerChatComponent`, the chat of one client. The packets that it sends are a
-- part of the result.
use protanki_protocol_rs.Common.{
  ℕ, Bool, true, false, Option, none, some, List, [], ◌∷◌, ◌++◌, ◌⊎◌, inl, inr, length, ltb,
  if◌then◌else◌,
}
use protanki_protocol_rs.Common.Bytes.{Bytes}
use protanki_protocol_rs.Common.Dict.{insert}
use protanki_protocol_rs.Protocol.Codec.Enums.Lobby.{ChatModeratorLevel}
use protanki_protocol_rs.Protocol.Codec.Structs.Lobby.{ChatMessage, ChatCc}
use protanki_protocol_rs.Server.Chat.{
  ServerChatEvent, message, message_history, ServerChat, Delivery, register_message,
  send_message_history,
}

pub record ServerChatComponent : Type 0 where
  pub subscriber : Option ℕ
  pub waker : Bool
  pub chat_messages_shown : Bool

pub data ChatPacket : Type 0 where
  global_chat_init_parameters : ChatCc → ChatPacket
  global_chat_antiflood_parameters : ℕ → ℕ → ChatPacket
  global_chat_add_messages : List ChatMessage → ChatPacket

pub data ChatError : Type 0 where
  missing_user_id not_authenticated : ChatError

-- What a poll of the channel answers. After the answers given it is pending.
pub data ChatAnswer : Type 0 where
  event : ServerChatEvent → ChatAnswer
  closed : ChatAnswer

unfoldable pub new_component : ServerChatComponent
new_component = record { subscriber = none; waker = false; chat_messages_shown = false }

-- The third argument is the channel that is made.
unfoldable pub subscribe :
    ServerChatComponent → ServerChat → ℕ → ℕ → ServerChatComponent × ServerChat × List Delivery
unfolding insert send_message_history
subscribe c chat channel client_id =
    let chat' = record chat { subscriber = insert client_id channel chat.subscriber } in
    (
      record c { subscriber = some channel; waker = false },
      chat',
      send_message_history (λ _. true) chat' client_id,
    )

unfoldable pub unsubscribe : ServerChatComponent → ServerChatComponent
unsubscribe c = record c { subscriber = none; waker = false }

unfoldable pub handle_chat_event :
    ServerChatComponent → ServerChatEvent → ServerChatComponent × List ChatPacket
handle_chat_event c (message m) =
    (record c { chat_messages_shown = true }, global_chat_add_messages (m ∷ []) ∷ [])
handle_chat_event c (message_history ms) = (c, global_chat_add_messages ms ∷ [])

unfoldable pub initialize :
    ServerChatComponent
    → ServerChat
    → ℕ
    → ℕ
    → Option Bytes
    → ChatError ⊎ (ServerChatComponent × ServerChat × List Delivery × List ChatPacket)
unfolding subscribe
initialize c chat channel client_id none = inl missing_user_id
initialize c chat channel client_id (some user_id) =
    let (c', chat', deliveries) = subscribe c chat channel client_id in
    inr (
      c',
      chat',
      deliveries,
      global_chat_init_parameters (record {
        admin = false;
        antiflood_enabled = true;
        buffer_size = 128;
        chat_enabled = true;
        chat_moderator_level = ChatModeratorLevel.none;
        links_white_list = none;
        min_char = 1;
        min_word = 1;
        self_name = user_id;
        show_links = true;
        typing_speed_antiflood_enabled = true;
      })
          ∷ global_chat_antiflood_parameters 880 176
          ∷ [],
    )

-- `on_packet`. The packet, where it is a `GlobalChatSendMessage`, is its target and its text.
unfoldable pub on_packet :
    (ℕ → Bool)
    → ServerChat
    → Option Bytes
    → Option (Bytes × Bytes)
    → ChatError ⊎ (ServerChat × List Delivery)
unfolding register_message
on_packet takes chat none packet = inl not_authenticated
on_packet takes chat (some user_id) none = inr (chat, [])
on_packet takes chat (some user_id) (some (target, text)) =
    inr (
      register_message takes chat user_id (if ltb 0 (length target) then some target else none)
        text)

unfoldable pub poll_channel :
    ServerChatComponent → List ChatAnswer → ServerChatComponent × List ChatPacket
unfolding handle_chat_event
poll_channel c [] = (c, [])
poll_channel c (closed ∷ answers) = (record c { subscriber = none }, [])
poll_channel c (event e ∷ answers) =
    let handled = handle_chat_event c e in
    let rest = poll_channel handled.0 answers in (rest.0, handled.1 ++ rest.1)

unfoldable pub poll : ServerChatComponent → List ChatAnswer → ServerChatComponent × List ChatPacket
unfolding poll_channel
poll c answers = elim c.subscriber [
  | none ↦ (record c { waker = true }, [])
  | some channel ↦ poll_channel (record c { waker = true }) answers
]
