-- ===== src/CrystalBot/Tanks.antt =====
-- applications/crystal-bot/src/main.rs: what the bot knows of the tanks of a battle. A float is its bit
-- pattern; the conversion of an integer to a float is a parameter, and so is what serde reads from the
-- json of a packet.
pub mod Filing
use protanki_protocol_rs.Common.{
  ℕ, ◌%◌, Bool, true, false, Option, none, some, List, [], ◌∷◌, ◌∙◌, if◌then◌else◌,
}
use protanki_protocol_rs.Common.Bytes.{Bytes, bytes_eq}
use protanki_protocol_rs.Common.Text.{codes}
use protanki_protocol_rs.Common.TextDict.{TextDict, lookup, insert, remove}
use protanki_protocol_rs.Protocol.Codec.Primitives.{Vector3}
use protanki_protocol_rs.Protocol.Codec.Enums.Battle.{BattleTeam}
use protanki_protocol_rs.Protocol.Codec.Structs.Tanks.{MoveCommand, RotateTurretCommand}

pub data TankState : Type 0 where
  new_come active dead : TankState

pub record BattleTank : Type 0 where
  pub tank_id : Bytes
  pub team : BattleTeam
  pub health : ℕ
  pub incarnation_id : ℕ
  pub state : TankState
  pub control : ℕ
  pub position : Vector3
  pub orientation : Vector3
  pub velocity : Vector3
  pub angular_velocity : Vector3
  pub turret_rotation : ℕ

-- The fields of the json that the bot uses.
pub record BattleUserInit : Type 0 where
  pub team_type : Bytes
  pub position : Vector3
  pub orientation : Vector3
  pub incarnation : ℕ
  pub tank_id : Bytes
  pub state : Bytes
  pub health : ℕ

pub record BattleTanks : Type 0 where
  pub local_tank_id : Bytes
  pub tanks : TextDict BattleTank

pub data TankError : Type 0 where
  missing_position missing_orientation missing_tanks_component : TankError
  invalid_json invalid_team invalid_state already_existed missing_local_tank : TankError

-- The packets that `BattleTanksPacketHandler` looks at, with the fields that it reads.
pub data TankPacket : Type 0 where
  battle_user_init : Bytes → TankPacket
  tank_spawn :
      (tank_id : Bytes) (team : BattleTeam) (health incarnation_id : ℕ)
      (position orientation : Option Vector3)
      → TankPacket
  tank_health : Bytes → ℕ → TankPacket
  tank_activated tank_kill tank_destroy : Bytes → TankPacket
  tank_move_control_flags : Bytes → ℕ → TankPacket
  tank_move_turret_command : Bytes → MoveCommand → ℕ → TankPacket
  tank_move_command : Bytes → MoveCommand → TankPacket
  tank_spawn_location : (position orientation : Option Vector3) → TankPacket
  tank_turret_command : Bytes → RotateTurretCommand → TankPacket
  other_packet : TankPacket

abbrev pub zero_vector : Vector3
zero_vector = record { x = 0; y = 0; z = 0 }

-- What both kinds of packet set of a tank that comes; the rest is `BattleTank::default()`.
unfoldable pub new_tank : Bytes → BattleTeam → TankState → ℕ → ℕ → Vector3 → Vector3 → BattleTank
new_tank tank_id team state health incarnation_id position orientation = record {
  tank_id = tank_id;
  team = team;
  health = health;
  incarnation_id = incarnation_id;
  state = state;
  control = 0;
  position = position;
  orientation = orientation;
  velocity = zero_vector;
  angular_velocity = zero_vector;
  turret_rotation = 0;
}

-- The fields are set one after another: what was set before the first missing one stays.
unfoldable pub update_from_move_command : BattleTank → MoveCommand → BattleTank × Option TankError
update_from_move_command tank command = elim command.position [
  | none ↦ (tank, some missing_position)
  | some p ↦
      let tank' = record tank { position = p } in
      elim command.velocity [
        | none ↦ (tank', some missing_position)
        | some v ↦
            let tank'' = record tank' { velocity = v } in
            elim command.angular_velocity [
              | none ↦ (tank'', some missing_position)
              | some a ↦
                  let moved = record tank'' { angular_velocity = a } in
                  elim command.orientation [
                    | none ↦ (moved, some missing_position)
                    | some o ↦ (record moved { orientation = o }, none)
                  ]
            ]
      ]
]

unfoldable pub update_from_turret_command : BattleTank → RotateTurretCommand → BattleTank
update_from_turret_command tank command = record tank { turret_rotation = command.angle }

unfoldable pub team_of : Bytes → Option BattleTeam
unfolding bytes_eq
team_of text =
    if bytes_eq text (codes "RED")
    then some BattleTeam.red
    else if bytes_eq text (codes "BLUE")
    then some BattleTeam.blue
    else if bytes_eq text (codes "NONE")
    then some BattleTeam.none
    else none

unfoldable pub state_of : Bytes → Option TankState
unfolding bytes_eq
state_of text =
    if bytes_eq text (codes "newcome")
    then some new_come
    else if bytes_eq text (codes "active")
    then some active
    else if bytes_eq text (codes "suicide")
    then some dead
    else none

unfoldable pub new_tanks : Bytes → BattleTanks
new_tanks local_tank_id = record { local_tank_id = local_tank_id; tanks = [] }

-- `if let Some(tank) = tanks.get_mut(id)`, with an update that may fail.
unfoldable pub with_tank :
    BattleTanks
    → Bytes
    → (BattleTank → BattleTank × Option TankError)
    → BattleTanks × Option TankError
unfolding lookup insert
with_tank ts id update = elim (lookup id ts.tanks) [
  | none ↦ (ts, none)
  | some tank ↦
      let updated = update tank in (record ts { tanks = insert id updated.0 ts.tanks }, updated.1)
]

-- The old tank of the id, if there is one, is replaced before the error is returned.
unfoldable pub insert_user_tank : BattleTanks → BattleUserInit → BattleTanks × Option TankError
unfolding lookup insert team_of state_of new_tank
insert_user_tank ts payload = elim (team_of payload.team_type) [
  | none ↦ (ts, some invalid_team)
  | some team ↦ elim (state_of payload.state) [
    | none ↦ (ts, some invalid_state)
    | some state ↦
        let tank =
          new_tank payload.tank_id team state payload.health payload.incarnation payload.position
            payload.orientation in
        (
          record ts { tanks = insert payload.tank_id tank ts.tanks },
          elim (lookup payload.tank_id ts.tanks) [ none ↦ none | some old ↦ some already_existed ],
        )
  ]
]

-- The old tank is replaced; a warning is only logged.
unfoldable pub spawn_tank :
    BattleTanks
    → Bytes
    → BattleTeam
    → ℕ
    → ℕ
    → Option Vector3
    → Option Vector3
    → BattleTanks × Option TankError
unfolding insert new_tank
spawn_tank ts tank_id team health incarnation_id position orientation = elim position [
  | none ↦ (ts, some missing_position)
  | some p ↦ elim orientation [
    | none ↦ (ts, some missing_position)
    | some o ↦
        let tank = new_tank tank_id team new_come health incarnation_id p o in
        (record ts { tanks = insert tank_id tank ts.tanks }, none)
  ]
]

-- The position is set before the orientation is looked at.
unfoldable pub locate_tank :
    Option Vector3 → Option Vector3 → BattleTank → BattleTank × Option TankError
locate_tank position orientation tank = elim position [
  | none ↦ (tank, some missing_position)
  | some p ↦
      let tank' = record tank { position = p } in
      elim orientation [
        | none ↦ (tank', some missing_orientation)
        | some o ↦ (record tank' { orientation = o }, none)
      ]
]

unfoldable pub locate_local :
    BattleTanks → Option Vector3 → Option Vector3 → BattleTanks × Option TankError
unfolding lookup insert locate_tank
locate_local ts position orientation = elim (lookup ts.local_tank_id ts.tanks) [
  | none ↦ (ts, some missing_local_tank)
  | some tank ↦
      let located = locate_tank position orientation tank in
      (record ts { tanks = insert ts.local_tank_id located.0 ts.tanks }, located.1)
]

module _ (to_f32 : ℕ → ℕ) (read_json : Bytes → Option BattleUserInit) where
  unfoldable pub handle_packet : BattleTanks → TankPacket → BattleTanks × Option TankError
  unfolding with_tank insert_user_tank spawn_tank locate_local update_from_move_command
      update_from_turret_command remove
  handle_packet ts (battle_user_init json) = elim (read_json json) [
    | none ↦ (ts, some invalid_json)
    | some payload ↦ insert_user_tank ts payload
  ]
  handle_packet ts (tank_spawn tank_id team health incarnation_id position orientation) =
      spawn_tank ts tank_id team (to_f32 health) incarnation_id position orientation
  handle_packet ts (tank_health id health) =
      with_tank ts id λ tank. (record tank { health = health }, none)
  handle_packet ts (tank_activated id) =
      with_tank ts id λ tank. (record tank { state = active }, none)
  handle_packet ts (tank_kill id) = with_tank ts id λ tank. (record tank { state = dead }, none)
  handle_packet ts (tank_move_control_flags id control) =
      with_tank ts id λ tank. (record tank { control = control % 256 }, none)
  handle_packet ts (tank_move_turret_command id command turret_direction) = with_tank ts id λ tank.
      let moved = update_from_move_command tank command in
      elim moved.1 [
        | some e ↦ moved
        | none ↦ (record moved.0 { turret_rotation = turret_direction }, none)
      ]
  handle_packet ts (tank_move_command id command) =
      with_tank ts id λ tank. update_from_move_command tank command
  handle_packet ts (tank_spawn_location position orientation) = locate_local ts position orientation
  handle_packet ts (tank_turret_command id command) =
      with_tank ts id λ tank. (update_from_turret_command tank command, none)
  handle_packet ts (tank_destroy id) = (record ts { tanks = remove id ts.tanks }, none)
  handle_packet ts other_packet = (ts, none)

  -- `handle_packet` of the session's component, where it is there.
  unfoldable pub handle_component :
      Option BattleTanks → TankPacket → Option BattleTanks × Option TankError
  unfolding handle_packet
  handle_component none p = (none, some missing_tanks_component)
  handle_component (some ts) p = let handled = handle_packet ts p in (some handled.0, handled.1)
