-- ===== src/CrystalBot/Spawner/Order.antt =====
-- In which order `PacketHandlerTankSpawner` of applications/crystal-bot/src/main.rs sends its packets.
use protanki_protocol_rs.Common.{
  ℕ, zero, suc, ◌+◌, ◌≤◌, ◌<◌, ◌≡◌, refl, arith, Bool, true, false, ◌||◌, Option, none, some, List,
  [], ◌∷◌, ◌++◌, leb, ◌⊎◌, inl, inr, Bool-cases, Sum-cases,
}
use protanki_protocol_rs.Common.Bytes.{Bytes, bytes_eq}
use protanki_protocol_rs.CrystalBot.Spawner.{
  LocalTankState, uninit, dead, placed, activated, TankSpawner, SpawnPacket, tank_init,
  tank_ready2_place, tank_ready2_activate, new_spawner, next_state, handle_packet, SpawnEnd,
  pending, out_of_fuel, failed, SpawnPoll, poll,
}

abbrev pub Sent : Type 0
Sent = SpawnPacket × ℕ

-- The last packet that was sent.
abbrev pub last_of : Option Sent → List Sent → Option Sent
last_of before [] = before
last_of before (p ∷ ps) = last_of (some p) ps

-- `tank_init` is sent at most first of all, and `tank_ready2_activate` only right after a
-- `tank_ready2_place`, and 2.5 seconds later.
abbrev pub IsOrdered : Option Sent → List Sent → Type 0
IsOrdered before [] = Unit {0}
IsOrdered before ((tank_init, now) ∷ ps) = (before ≡ none) × IsOrdered (some (tank_init, now)) ps
IsOrdered before ((tank_ready2_place, now) ∷ ps) = IsOrdered (some (tank_ready2_place, now)) ps
IsOrdered before ((tank_ready2_activate, now) ∷ ps) =
    ((t : ℕ) × (before ≡ some (tank_ready2_place, t)) × (t + 2500 ≤ now))
    × IsOrdered (some (tank_ready2_activate, now)) ps

IsOrdered-append :
    (before : Option Sent) (ps qs : List Sent)
    → IsOrdered before ps
    → IsOrdered (last_of before ps) qs
    → IsOrdered before (ps ++ qs)
IsOrdered-append before [] qs o h = h
IsOrdered-append before ((tank_init, now) ∷ ps) qs o h = (o.0, IsOrdered-append _ ps qs o.1 h)
IsOrdered-append before ((tank_ready2_place, now) ∷ ps) qs o h = IsOrdered-append _ ps qs o h
IsOrdered-append before ((tank_ready2_activate, now) ∷ ps) qs o h =
    (o.0, IsOrdered-append _ ps qs o.1 h)

-- What a state says of the last packet.
abbrev Fits : LocalTankState → Option Sent → Type 0
Fits uninit before = before ≡ none
Fits (dead timer) before = Unit {0}
Fits (placed timer) before = (t : ℕ) × (before ≡ some (tank_ready2_place, t)) × (t + 2500 ≡ timer)
Fits activated before = Unit {0}

-- How many rounds a poll can still go on.
abbrev rounds : LocalTankState → ℕ
rounds uninit = 3
rounds (dead timer) = 2
rounds (placed timer) = 1
rounds activated = 0

abbrev pub is_out : {E : Type 0} → SpawnEnd E → Bool
is_out pending = false
is_out out_of_fuel = true
is_out (failed e) = false

module _ {S E : Type 0} (send : SpawnPacket → S → E ⊎ S) where
  abbrev IsGood : Option Sent → SpawnPoll S E → Type 0
  IsGood before r =
      IsOrdered before r.sent
      × Fits r.spawner.state (last_of before r.sent)
      × (is_out r.end ≡ false)

  -- A round that sends, or fails to.
  sending :
      (fuel : ℕ) (clock : ℕ → ℕ) (s : TankSpawner) (session : S) (before : Option Sent)
      (packet : SpawnPacket) (state : LocalTankState)
      → next_state (clock 0) s.state ≡ some (packet, state)
      → Fits s.state before
      → IsOrdered before ((packet, clock 0) ∷ [])
      → ((session' : S)
          → IsGood
              (some (packet, clock 0))
              (poll send fuel (λ round. clock (suc round)) (record s { state = state }) session'))
      → IsGood before (poll send (suc fuel) clock s session)
  unfolding poll
  sending fuel clock s session before packet state e f o ih =
      elim (Sum-cases (send packet session)) [
        | inl (x, k) ↦ rw (poll, e, k) (tt, f, refl)
        | inr (session', k) ↦
            let (a, b, c) = ih session' in
            rw (poll, e, k) (IsOrdered-append before ((packet, clock 0) ∷ []) _ o a, b, c)
      ]

  -- A round that ends the poll.
  ending :
      (fuel : ℕ) (clock : ℕ → ℕ) (s : TankSpawner) (session : S) (before : Option Sent)
      → next_state (clock 0) s.state ≡ none
      → Fits s.state before
      → IsGood before (poll send (suc fuel) clock s session)
  unfolding poll
  ending fuel clock s session before e f = rw (poll, e) (tt, f, refl)

  one_round :
      (fuel : ℕ) (clock : ℕ → ℕ) (s : TankSpawner) (session : S) (before : Option Sent)
      (state : LocalTankState)
      → s.state ≡ state
      → rounds state < suc fuel
      → Fits s.state before
      → ((clock' : ℕ → ℕ) (s' : TankSpawner) (session' : S) (before' : Option Sent)
          → rounds s'.state < fuel
          → Fits s'.state before'
          → IsGood before' (poll send fuel clock' s' session'))
      → IsGood before (poll send (suc fuel) clock s session)
  unfolding next_state
  one_round fuel clock s session before uninit e h f ih =
      sending fuel clock s session before tank_init (dead (clock 0 + 3000)) (rw e refl) f
        (rw e at f, tt) λ session'. ih _ _ session' _ (omega arith) tt
  one_round fuel clock s session before (dead timer) e h f ih =
      elim (Bool-cases (leb timer (clock 0))) [
        | inl l ↦
            sending fuel clock s session before tank_ready2_place (placed (clock 0 + 2500))
              (rw (e, l) refl) f tt
              λ session'. ih _ _ session' _ (omega arith) (clock 0, refl, refl)
        | inr l ↦ ending fuel clock s session before (rw (e, l) refl) f
      ]
  one_round fuel clock s session before (placed timer) e h f ih =
      let (t, b, d) = rw e at f in
      elim (Bool-cases (leb timer (clock 0))) [
        | inl l ↦
            sending fuel clock s session before tank_ready2_activate activated (rw (e, l) refl) f
              ((t, b, ground (arith, d, l)), tt) λ session'. ih _ _ session' _ (omega arith) tt
        | inr l ↦ ending fuel clock s session before (rw (e, l) refl) f
      ]
  one_round fuel clock s session before activated e h f ih =
      ending fuel clock s session before (rw e refl) f

  poll-IsGood :
      (fuel : ℕ) (clock : ℕ → ℕ) (s : TankSpawner) (session : S) (before : Option Sent)
      → rounds s.state < fuel
      → Fits s.state before
      → IsGood before (poll send fuel clock s session)
  poll-IsGood zero clock s session before h f = elim h [ ]
  poll-IsGood (suc fuel) clock s session before h f =
      one_round fuel clock s session before s.state refl h f
        λ clock' s' session' before'. poll-IsGood fuel clock' s' session' before'

-- What happens to the spawner: a poll, or a packet at a time.
pub data SpawnEvent : Type 0 where
  polled : (ℕ → ℕ) → SpawnEvent
  packet : ℕ → Option Bytes → SpawnEvent

module _ {S E : Type 0} (send : SpawnPacket → S → E ⊎ S) where
  -- What is sent, and whether a poll ran out of its four rounds.
  unfoldable pub run : List SpawnEvent → TankSpawner → S → List Sent × Bool
  unfolding poll handle_packet
  run [] s session = ([], false)
  run (polled clock ∷ events) s session =
      let r = poll send 4 clock s session in
      let rest = run events r.spawner r.session in (r.sent ++ rest.0, is_out r.end || rest.1)
  run (packet now p ∷ events) s session = run events (handle_packet now s p) session

  rounds-le : (state : LocalTankState) → rounds state < 4
  rounds-le uninit = omega arith
  rounds-le (dead timer) = omega arith
  rounds-le (placed timer) = omega arith
  rounds-le activated = omega arith

  -- A packet leaves the state, or makes it dead.
  handle_packet-Fits :
      (now : ℕ) (s : TankSpawner) (p : Option Bytes) (before : Option Sent)
      → Fits s.state before
      → Fits (handle_packet now s p).state before
  unfolding handle_packet
  handle_packet-Fits now s none before f = f
  handle_packet-Fits now s (some tank_id) before f =
      elim (Bool-cases (bytes_eq tank_id s.local_id)) [
        | inl h ↦ rw (h, handle_packet) tt
        | inr h ↦ rw (h, handle_packet) f
      ]

  run-good :
      (events : List SpawnEvent) (s : TankSpawner) (session : S) (before : Option Sent)
      → Fits s.state before
      → IsOrdered before (run events s session).0 × ((run events s session).1 ≡ false)
  unfolding run
  run-good [] s session before f = (tt, refl)
  run-good (polled clock ∷ events) s session before f =
      let r = poll send 4 clock s session in
      let (o, g, e) = poll-IsGood send 4 clock s session before (rounds-le s.state) f in
      let (o', e') = run-good events r.spawner r.session (last_of before r.sent) g in
      (IsOrdered-append before r.sent _ o o', rw (e, e') refl)
  run-good (packet now p ∷ events) s session before f =
      run-good events (handle_packet now s p) session before (handle_packet-Fits now s p before f)

  -- Whatever packets come, and whenever the spawner is polled: four rounds are enough for each poll. The
  -- init packet is sent at most once, first of all; the packet that activates the tank is sent only right
  -- after the one that places it, and at least 2.5 seconds later.
  pub run-IsOrdered :
      (events : List SpawnEvent) (local_id : Bytes) (session : S)
      → let r = run events (new_spawner local_id) session in IsOrdered none r.0 × (r.1 ≡ false)
  unfolding new_spawner
  run-IsOrdered events local_id session = run-good events (new_spawner local_id) session none refl
