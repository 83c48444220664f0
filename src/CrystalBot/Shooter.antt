-- ===== src/CrystalBot/Shooter.antt =====
-- applications/crystal-bot/src/main.rs: the handlers that shoot, and that turn the turret. Distances and
-- random numbers are parameters; a float is its bit pattern. The packets are a part of the result.
pub mod Nearest
use protanki_protocol_rs.Common.{
  ℕ, Bool, true, false, not, ◌&&◌, Option, none, some, List, [], ◌∷◌, ◌==◌, if◌then◌else◌,
}
use protanki_protocol_rs.Common.Bytes.{Bytes, bytes_eq}
use protanki_protocol_rs.Common.TextDict.{TextDict, lookup}
use protanki_protocol_rs.Protocol.Codec.Primitives.{Vector3}
use protanki_protocol_rs.Protocol.Codec.Enums.Battle.{BattleTeam}
use protanki_protocol_rs.CrystalBot.Tanks.{
  TankState, new_come, active, dead, BattleTank, BattleTanks,
}

unfoldable pub is_active : TankState → Bool
is_active active = true
is_active new_come = false
is_active dead = false

unfoldable pub is_dead : TankState → Bool
is_dead dead = true
is_dead new_come = false
is_dead active = false

-- `tank.team != BattleTeam::None && tank.team == local.team`
unfoldable pub same_team : BattleTeam → BattleTeam → Bool
same_team BattleTeam.red BattleTeam.red = true
same_team BattleTeam.blue BattleTeam.blue = true
same_team BattleTeam.unknown BattleTeam.unknown = true
same_team _ _ = false

-- The three tests of the loop.
unfoldable pub is_target : BattleTank → BattleTank → Bool
unfolding is_active same_team bytes_eq
is_target own tank =
    if bytes_eq tank.tank_id own.tank_id
    then false
    else if is_active tank.state
    then not (same_team tank.team own.team)
    else false

abbrev pub values : TextDict BattleTank → List BattleTank
values [] = []
values ((id, tank) ∷ entries) = tank ∷ values entries

-- The target's id, and its incarnation. The hit points are all zero.
pub record SmokyShot : Type 0 where
  pub client_session_time : ℕ
  pub target : Bytes
  pub incarnation_id : ℕ

module _ {D : Type 0} (distance : Vector3 → Vector3 → D) (lt : D → D → Bool) (farthest : D) where
  -- The loop over the tanks, with the best tank so far and its distance.
  unfoldable pub best_of : BattleTank → List BattleTank → Option BattleTank → D → Option BattleTank
  unfolding is_target
  best_of own [] best best_distance = best
  best_of own (tank ∷ tanks) best best_distance =
      let d = distance tank.position own.position in
      let nearer = is_target own tank && lt d best_distance in
      best_of own tanks (if nearer then some tank else best) (if nearer then d else best_distance)

  unfoldable pub best_target : BattleTank → TextDict BattleTank → Option BattleTank
  unfolding best_of
  best_target own tanks = best_of own (values tanks) none farthest

  -- One tick of the interval: `SMOKY_SHOT`, the component, and the session's time.
  unfoldable pub shoot : Bool → Option BattleTanks → Bytes → ℕ → Option SmokyShot
  unfolding lookup is_active best_target
  shoot enabled component local_tank_id now =
      if enabled
      then elim component [
        | none ↦ none
        | some ts ↦ elim (lookup local_tank_id ts.tanks) [
          | none ↦ none
          | some own ↦
              if is_active own.state
              then elim (best_target own ts.tanks) [
                | none ↦ none
                | some tank ↦ some (record {
                  client_session_time = now;
                  target = tank.tank_id;
                  incarnation_id = tank.incarnation_id;
                })
              ]
              else none
        ]
      ]
      else none

pub data MovePacket : Type 0 where
  tank_move_control_flags : (control client_session_time specification_id : ℕ) → MovePacket
  tank_turret_command : (incarnation_id client_session_time angle control : ℕ) → MovePacket

-- One tick of `PacketHandlerRandomMoveControlFlags`, with the random angle and the coin.
unfoldable pub move_randomly : Option BattleTanks → Bytes → ℕ → ℕ → Bool → Option MovePacket
unfolding lookup is_dead
move_randomly component tank_id now angle coin = elim component [
  | none ↦ none
  | some ts ↦ elim (lookup tank_id ts.tanks) [
    | none ↦ none
    | some tank ↦ some (
        if is_dead tank.state
        then tank_move_control_flags 0 now tank.incarnation_id
        else tank_turret_command tank.incarnation_id now angle (if coin then 32 else 64))
  ]
]

-- `LogFilter::should_log`
unfoldable pub should_log : ℕ → Bool
should_log model_id = not (model_id == 45) && not (model_id == 32)
