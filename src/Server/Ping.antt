-- ===== src/Server/Ping.antt =====
-- server/src/client_components/ping.rs: the pings of a connection. The ticks of the interval that a poll
-- sees, with their times, and whether a packet is a pong, are arguments.
use protanki_protocol_rs.Common.{
  ℕ, ◌+◌, ◌≤◌, ◌≡◌, arith, Bool, true, false, Option, none, some, List, [], ◌∷◌,
}

pub record ConnectionPing : Type 0 where
  pub send_timestamp : Option ℕ

unfoldable pub new_ping : ConnectionPing
new_ping = record { send_timestamp = none }

-- `on_packet`, by whether the packet is a `PingMeasurePong`.
unfoldable pub on_packet : ConnectionPing → Bool → ConnectionPing
on_packet ping is_pong = elim is_pong [
  | true ↦ record ping { send_timestamp = none }
  | false ↦ ping
]

-- `poll`, with how many pings it sends.
unfoldable pub poll : ConnectionPing → List ℕ → ConnectionPing × ℕ
poll ping [] = (ping, 0)
poll ping (now ∷ ticks) = elim ping.send_timestamp [
  | some timestamp ↦ poll ping ticks
  | none ↦ let rest = poll (record ping { send_timestamp = some now }) ticks in (rest.0, 1 + rest.1)
]

-- What happens to the component: a packet, or a poll.
pub data PingEvent : Type 0 where
  packet : Bool → PingEvent
  ticks : List ℕ → PingEvent

-- How many pings are sent.
unfoldable pub sent_pings : ConnectionPing → List PingEvent → ℕ
unfolding on_packet poll
sent_pings ping [] = 0
sent_pings ping (packet is_pong ∷ events) = sent_pings (on_packet ping is_pong) events
sent_pings ping (ticks times ∷ events) =
    let polled = poll ping times in polled.1 + sent_pings polled.0 events

abbrev pub pongs : List PingEvent → ℕ
pongs [] = 0
pongs (packet true ∷ events) = 1 + pongs events
pongs (packet false ∷ events) = pongs events
pongs (ticks times ∷ events) = pongs events

-- Pings that wait for their pong.
abbrev pub waiting : Option ℕ → ℕ
waiting none = 0
waiting (some timestamp) = 1

waiting-le : (o : Option ℕ) → waiting o ≤ 1
waiting-le none = omega arith
waiting-le (some timestamp) = omega arith

poll-waiting :
    (ts : List ℕ) (o : Option ℕ)
    → let r = poll (record { send_timestamp = o }) ts in
      r.1 + waiting o ≡ waiting r.0.send_timestamp
unfolding poll
poll-waiting [] o = omega arith
poll-waiting (t ∷ ts) (some u) = poll-waiting ts (some u)
poll-waiting (t ∷ ts) none = omega (arith, poll-waiting ts (some t))

-- One ping is on its way at most: the pings that are sent, with the one that waits at the beginning, if
-- there is one, are at most one more than the pongs that come.
pub sent_pings-le :
    (events : List PingEvent) (ping : ConnectionPing)
    → sent_pings ping events + waiting ping.send_timestamp ≤ 1 + pongs events
unfolding sent_pings on_packet
sent_pings-le [] ping = omega (arith, waiting-le ping.send_timestamp)
sent_pings-le (packet true ∷ events) ping = omega (
  arith,
  sent_pings-le events (record ping { send_timestamp = none }),
  waiting-le ping.send_timestamp,
)
sent_pings-le (packet false ∷ events) ping = sent_pings-le events ping
sent_pings-le (ticks times ∷ events) ping =
    omega (arith, sent_pings-le events (poll ping times).0, poll-waiting times ping.send_timestamp)
