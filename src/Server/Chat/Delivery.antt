-- ===== src/Server/Chat/Delivery.antt =====
-- What a client reads that subscribes to the chat of server/src/chat.rs.
use protanki_protocol_rs.Common.{
  ℕ, ◌≡◌, refl, ap, ◌∙◌, sym, arith, Bool, true, some, List, [], ◌∷◌, ◌++◌, map, ◌==◌,
  if◌then◌else◌, ==→eq, ==_refl, Bool-cases, inl, inr, append_assoc, replicate, All, suc,
}
use protanki_protocol_rs.Common.Dict.{Dict, insert, lookup, lookup-insert}
use protanki_protocol_rs.Protocol.Codec.Structs.Lobby.{ChatMessage}
use protanki_protocol_rs.Server.Chat.{
  ServerChatEvent, message, message_history, ServerChat, Delivery, retain, dispatch_server_event,
  register_chat_message, send_message_history, system_message, development_warning,
}
use protanki_protocol_rs.Server.Chat.History.{register_all}
use protanki_protocol_rs.Server.Chat.Component.{
  ServerChatComponent, ChatPacket, global_chat_init_parameters, global_chat_antiflood_parameters,
  global_chat_add_messages, event, subscribe, handle_chat_event, poll_channel, poll,
}

-- The events on one channel, in order.
abbrev pub on_channel : ℕ → List Delivery → List ServerChatEvent
on_channel channel [] = []
on_channel channel ((c, e) ∷ ds) =
    if c == channel then e ∷ on_channel channel ds else on_channel channel ds

-- How many clients read a channel.
abbrev pub readers : ℕ → Dict ℕ → ℕ
readers channel [] = 0
readers channel ((id, c) ∷ subscriber) =
    if c == channel then suc (readers channel subscriber) else readers channel subscriber

-- The messages that packets show, in order.
abbrev pub shown : List ChatPacket → List ChatMessage
shown [] = []
shown (global_chat_add_messages ms ∷ ps) = ms ++ shown ps
shown (global_chat_init_parameters cc ∷ ps) = shown ps
shown (global_chat_antiflood_parameters enter symbol ∷ ps) = shown ps

on_channel-append :
    (channel : ℕ) (ds es : List Delivery)
    → on_channel channel (ds ++ es) ≡ on_channel channel ds ++ on_channel channel es
on_channel-append channel [] es = refl
on_channel-append channel ((c, e) ∷ ds) es = elim (Bool-cases (c == channel)) [
  | inl h ↦ rw h (ap (◌∷◌ e) (on_channel-append channel ds es))
  | inr h ↦ rw h (on_channel-append channel ds es)
]

readers-insert :
    (channel id c : ℕ) (subscriber : Dict ℕ)
    → readers channel subscriber ≡ 0
    → readers channel (insert id c subscriber) ≡ (if c == channel then 1 else 0)
unfolding insert
readers-insert channel id c [] h = ground arith
readers-insert channel id c ((j, d) ∷ subscriber) h =
    ground (arith, readers-insert channel id c subscriber)

retain-readers :
    (takes : ℕ → Bool) (e : ServerChatEvent) (channel : ℕ) (subscriber : Dict ℕ)
    → takes channel ≡ true
    → (readers channel (retain takes e subscriber).0 ≡ readers channel subscriber)
      × (on_channel channel (retain takes e subscriber).1
          ≡ replicate (readers channel subscriber) e)
unfolding retain
retain-readers takes e channel [] h = (refl, refl)
retain-readers takes e channel ((id, c) ∷ subscriber) h =
    let (p, q) = retain-readers takes e channel subscriber h in
    elim (Bool-cases (c == channel)) [
      | inl k ↦ rw (k, ap takes (==→eq c channel k) ∙ h, k) (ap suc p, ap (◌∷◌ e) q)
      | inr k ↦ elim (Bool-cases (takes c)) [ inl t ↦ rw (t, k) (p, q) | inr t ↦ rw (t, k) (p, q) ]
    ]

register_all-on_channel :
    (channel : ℕ) (chat : ServerChat) (ms : List ((ℕ → Bool) × ChatMessage))
    → readers channel chat.subscriber ≡ 1
    → All (λ s. s.0 channel ≡ true) ms
    → on_channel channel (register_all chat ms).1 ≡ map (λ s. message s.1) ms
unfolding register_all register_chat_message dispatch_server_event
register_all-on_channel channel chat [] r t = refl
register_all-on_channel channel chat ((takes, m) ∷ ms) r t =
    let first = register_chat_message takes chat m in
    let (p, q) = retain-readers takes (message m) channel chat.subscriber t.0 in
    on_channel-append channel first.1 (register_all first.0 ms).1
    ∙ (rw (q, r) (ap (◌∷◌ (message m)) (register_all-on_channel channel first.0 ms (p ∙ r) t.1)))

shown-append : (ps qs : List ChatPacket) → shown (ps ++ qs) ≡ shown ps ++ shown qs
shown-append [] qs = refl
shown-append (global_chat_add_messages ms ∷ ps) qs =
    ap (◌++◌ ms) (shown-append ps qs) ∙ sym (append_assoc ms (shown ps) (shown qs))
shown-append (global_chat_init_parameters cc ∷ ps) qs = shown-append ps qs
shown-append (global_chat_antiflood_parameters enter symbol ∷ ps) qs = shown-append ps qs

-- A component shows the messages of the events that it reads, in order.
poll_channel-shown :
    (c : ServerChatComponent) (ms : List ((ℕ → Bool) × ChatMessage))
    → shown (poll_channel c (map (λ e. event e) (map (λ s. message s.1) ms))).1 ≡ map (λ s. s.1) ms
unfolding poll_channel handle_chat_event
poll_channel-shown c [] = refl
poll_channel-shown c ((takes, m) ∷ ms) =
    ap (◌∷◌ m) (poll_channel-shown (record c { chat_messages_shown = true }) ms)

subscribed-on_channel :
    (chat : ServerChat) (channel client_id : ℕ) (ds : List Delivery)
    → on_channel channel (
        send_message_history
          (λ _. true)
          (record chat { subscriber = insert client_id channel chat.subscriber })
          client_id
        ++ ds)
      ≡ message_history chat.history
        ∷ message (system_message development_warning true)
        ∷ on_channel channel ds
unfolding send_message_history
subscribed-on_channel chat channel client_id ds =
    let e : lookup client_id (insert client_id channel chat.subscriber) ≡ some channel =
      lookup-insert client_id client_id channel chat.subscriber ∙ rw (==_refl client_id) refl in
    rw (e, send_message_history, ==_refl channel) refl

-- A client that subscribes with a channel that nobody else reads and that takes all later messages is
-- shown the messages that the chat remembers, then the warning, and then each later message, in order,
-- when its component reads what was put on the channel.
pub subscribe-shown :
    (c : ServerChatComponent) (chat : ServerChat) (channel client_id : ℕ)
    (ms : List ((ℕ → Bool) × ChatMessage))
    → readers channel chat.subscriber ≡ 0
    → All (λ s. s.0 channel ≡ true) ms
    → let s = subscribe c chat channel client_id in
      shown (poll s.0 (map (λ e. event e) (on_channel channel (s.2 ++ (register_all s.1 ms).1)))).1
      ≡ chat.history ++ (system_message development_warning true ∷ map (λ s. s.1) ms)
unfolding subscribe poll poll_channel handle_chat_event
subscribe-shown c chat channel client_id ms r t =
    let chat' = record chat { subscriber = insert client_id channel chat.subscriber } in
    rw
      (
        subscribed-on_channel chat channel client_id (register_all chat' ms).1,
        register_all-on_channel channel chat' ms
            (readers-insert channel client_id channel chat.subscriber r ∙ rw (==_refl channel) refl)
            t,
      )
      (ap
        (λ (shown' : List ChatMessage).
          chat.history ++ (system_message development_warning true ∷ shown'))
        (poll_channel-shown _ ms))
