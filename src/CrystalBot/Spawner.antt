-- ===== src/CrystalBot/Spawner.antt =====
-- applications/crystal-bot/src/main.rs: `PacketHandlerTankSpawner`, which brings the bot's tank into the
-- battle. A timer is the time at which it is over, in milliseconds. The connection that sends is a
-- parameter, and so is the clock, which is read once in each round of a poll.
pub mod Order
use protanki_protocol_rs.Common.{
  ℕ, zero, suc, ◌+◌, Bool, true, false, Option, none, some, List, [], ◌∷◌, ◌++◌, leb, if◌then◌else◌,
  ◌⊎◌, inl, inr,
}
use protanki_protocol_rs.Common.Bytes.{Bytes, bytes_eq}

pub data LocalTankState : Type 0 where
  uninit activated : LocalTankState
  dead placed : ℕ → LocalTankState

pub record TankSpawner : Type 0 where
  pub local_id : Bytes
  pub state : LocalTankState
  pub waker : Bool

-- What the spawner sends.
pub data SpawnPacket : Type 0 where
  tank_init tank_ready2_place tank_ready2_activate : SpawnPacket

unfoldable pub new_spawner : Bytes → TankSpawner
new_spawner local_id = record { local_id = local_id; state = uninit; waker = false }

-- What `update` does at a time: the packet that it sends, and the new state if that succeeds.
unfoldable pub next_state : ℕ → LocalTankState → Option (SpawnPacket × LocalTankState)
next_state now uninit = some (tank_init, dead (now + 3000))
next_state now (dead timer) =
    if leb timer now then some (tank_ready2_place, placed (now + 2500)) else none
next_state now (placed timer) =
    if leb timer now then some (tank_ready2_activate, activated) else none
next_state now activated = none

-- `handle_packet`, for a `TankKill` with its tank, if it is one. The respawn delay is not looked at.
unfoldable pub handle_packet : ℕ → TankSpawner → Option Bytes → TankSpawner
unfolding bytes_eq
handle_packet now s none = s
handle_packet now s (some tank_id) =
    if bytes_eq tank_id s.local_id then record s { state = dead (now + 0); waker = false } else s

-- Where a poll ends: pending, with an error of the connection, or out of fuel.
pub data SpawnEnd (E : Type 0) : Type 0 where
  pending out_of_fuel : SpawnEnd E
  failed : E → SpawnEnd E

-- A poll: the spawner, the session, and the packets that were sent, with their times.
pub record SpawnPoll (S E : Type 0) : Type 0 where
  pub spawner : TankSpawner
  pub session : S
  pub sent : List (SpawnPacket × ℕ)
  pub end : SpawnEnd E

module _ {S E : Type 0} (send : SpawnPacket → S → E ⊎ S) where
  -- `poll`, with fuel for the rounds of its loop.
  unfoldable pub poll : ℕ → (ℕ → ℕ) → TankSpawner → S → SpawnPoll S E
  unfolding next_state
  poll zero clock s session = record {
    spawner = s;
    session = session;
    sent = [];
    end = out_of_fuel;
  }
  poll (suc fuel) clock s session = elim (next_state (clock 0) s.state) [
    | none ↦ record {
      spawner = record s { waker = true };
      session = session;
      sent = [];
      end = pending;
    }
    | some (packet, state) ↦ elim (send packet session) [
      | inl e ↦ record { spawner = s; session = session; sent = []; end = failed e }
      | inr session' ↦
          let rest = poll fuel (λ round. clock (suc round)) (record s { state = state }) session' in
          record rest { sent = (packet, clock 0) ∷ rest.sent }
    ]
  ]
