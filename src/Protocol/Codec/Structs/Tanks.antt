-- ===== src/Protocol/Codec/Structs/Tanks.antt =====
-- The structs of protocol/src/codec/structs.rs about tanks, hits and mines. A field is written and read in the
-- order of the source, as `codec_struct!` spells it out.
use protanki_protocol_rs.Common.{[], ℕ, Option, List}
use protanki_protocol_rs.Common.Bytes.{Bytes, IsByte, IsU32}
use protanki_protocol_rs.Protocol.Error.{ok}
use protanki_protocol_rs.Protocol.Codec.Reader.{
  pure, ◌>>=◌, ◌⧺◌, Codec, RoundTrips, Carries-pure, Carries-bind,
}
use protanki_protocol_rs.Protocol.Codec.Primitives.{
  ByteOrder, f32, f32-RoundTrips, i32, i32-RoundTrips, i8, i8-RoundTrips, Vector3, IsVector3,
  vector3, vector3-RoundTrips,
}
use protanki_protocol_rs.Protocol.Codec.Basics.{string, IsString, vec, IsVec, option, IsOption}
use protanki_protocol_rs.Protocol.Codec.Basics.RoundTrip.{
  string-RoundTrips, vec-RoundTrips, option-RoundTrips,
}
use protanki_protocol_rs.Protocol.Codec.Enums.{IsKnown}
use protanki_protocol_rs.Protocol.Codec.Enums.Battle.{
  DamageIndicatorType, damage_indicator_type_ordinal, damage_indicator_type,
  damage_indicator_type-RoundTrips,
}
use protanki_protocol_rs.Protocol.Codec.Resources.{
  ResourceReference, IsResourceReference, resource_reference, resource_reference-RoundTrips,
}

pub record TargetTankDamage : Type 0 where
  pub method_2673 : ℕ
  pub method_2351 : DamageIndicatorType
  pub target : Bytes

abbrev pub IsTargetTankDamage : TargetTankDamage → Type 0
IsTargetTankDamage v =
    IsU32 v.method_2673 × IsKnown damage_indicator_type_ordinal v.method_2351 × IsString v.target

unfoldable pub target_tank_damage : ⦃order : ByteOrder⦄ → Codec TargetTankDamage
target_tank_damage = record {
  encode = λ v.
      f32.encode v.method_2673
      ⧺ damage_indicator_type.encode v.method_2351
      ⧺ string.encode v.target
      ⧺ ok [];
  decode = do
    method_2673 ← f32.decode
    method_2351 ← damage_indicator_type.decode
    target ← string.decode
    pure (record { method_2673 = method_2673; method_2351 = method_2351; target = target });
}

pub target_tank_damage-RoundTrips :
    ⦃order : ByteOrder⦄ → RoundTrips target_tank_damage IsTargetTankDamage
unfolding target_tank_damage
target_tank_damage-RoundTrips v h = Carries-bind _ _ (f32-RoundTrips v.method_2673 h.0) (
    Carries-bind _ _ (damage_indicator_type-RoundTrips v.method_2351 h.1)
      (Carries-bind _ _ (string-RoundTrips v.target h.2) (Carries-pure _)))

pub record TargetPosition : Type 0 where
  pub name_22 : Option Vector3
  pub orientation : Option Vector3
  pub position : Option Vector3
  pub turret_angle : ℕ

abbrev pub IsTargetPosition : TargetPosition → Type 0
IsTargetPosition v =
    IsOption IsVector3 v.name_22
    × IsOption IsVector3 v.orientation
    × IsOption IsVector3 v.position
    × IsU32 v.turret_angle

unfoldable pub target_position : ⦃order : ByteOrder⦄ → Codec TargetPosition
target_position = record {
  encode = λ v.
      (option vector3).encode v.name_22
      ⧺ (option vector3).encode v.orientation
      ⧺ (option vector3).encode v.position
      ⧺ f32.encode v.turret_angle
      ⧺ ok [];
  decode = do
    name_22 ← (option vector3).decode
    orientation ← (option vector3).decode
    position ← (option vector3).decode
    turret_angle ← f32.decode
    pure (record {
      name_22 = name_22;
      orientation = orientation;
      position = position;
      turret_angle = turret_angle;
    });
}

pub target_position-RoundTrips : ⦃order : ByteOrder⦄ → RoundTrips target_position IsTargetPosition
unfolding target_position
target_position-RoundTrips v h =
    Carries-bind _ _ (option-RoundTrips vector3 IsVector3 vector3-RoundTrips v.name_22 h.0) (
      Carries-bind _ _ (option-RoundTrips vector3 IsVector3 vector3-RoundTrips v.orientation h.1) (
        Carries-bind _ _ (option-RoundTrips vector3 IsVector3 vector3-RoundTrips v.position h.2)
          (Carries-bind _ _ (f32-RoundTrips v.turret_angle h.3) (Carries-pure _))))

pub record TargetHit : Type 0 where
  pub direction : Option Vector3
  pub name_22 : Option Vector3
  pub method_1131 : ℕ

abbrev pub IsTargetHit : TargetHit → Type 0
IsTargetHit v = IsOption IsVector3 v.direction × IsOption IsVector3 v.name_22 × IsByte v.method_1131

unfoldable pub target_hit : ⦃order : ByteOrder⦄ → Codec TargetHit
target_hit = record {
  encode = λ v.
      (option vector3).encode v.direction
      ⧺ (option vector3).encode v.name_22
      ⧺ i8.encode v.method_1131
      ⧺ ok [];
  decode = do
    direction ← (option vector3).decode
    name_22 ← (option vector3).decode
    method_1131 ← i8.decode
    pure (record { direction = direction; name_22 = name_22; method_1131 = method_1131 });
}

pub target_hit-RoundTrips : ⦃order : ByteOrder⦄ → RoundTrips target_hit IsTargetHit
unfolding target_hit
target_hit-RoundTrips v h =
    Carries-bind _ _ (option-RoundTrips vector3 IsVector3 vector3-RoundTrips v.direction h.0) (
      Carries-bind _ _ (option-RoundTrips vector3 IsVector3 vector3-RoundTrips v.name_22 h.1)
        (Carries-bind _ _ (i8-RoundTrips v.method_1131 h.2) (Carries-pure _)))

pub record RotateTurretCommand : Type 0 where
  pub angle : ℕ
  pub control : ℕ

abbrev pub IsRotateTurretCommand : RotateTurretCommand → Type 0
IsRotateTurretCommand v = IsU32 v.angle × IsByte v.control

unfoldable pub rotate_turret_command : ⦃order : ByteOrder⦄ → Codec RotateTurretCommand
rotate_turret_command = record {
  encode = λ v. f32.encode v.angle ⧺ i8.encode v.control ⧺ ok [];
  decode = do
    angle ← f32.decode
    control ← i8.decode
    pure (record { angle = angle; control = control });
}

pub rotate_turret_command-RoundTrips :
    ⦃order : ByteOrder⦄ → RoundTrips rotate_turret_command IsRotateTurretCommand
unfolding rotate_turret_command
rotate_turret_command-RoundTrips v h =
    Carries-bind _ _ (f32-RoundTrips v.angle h.0)
      (Carries-bind _ _ (i8-RoundTrips v.control h.1) (Carries-pure _))

pub record MoveCommand : Type 0 where
  pub angular_velocity : Option Vector3
  pub control : ℕ
  pub velocity : Option Vector3
  pub orientation : Option Vector3
  pub position : Option Vector3

abbrev pub IsMoveCommand : MoveCommand → Type 0
IsMoveCommand v =
    IsOption IsVector3 v.angular_velocity
    × IsByte v.control
    × IsOption IsVector3 v.velocity
    × IsOption IsVector3 v.orientation
    × IsOption IsVector3 v.position

unfoldable pub move_command : ⦃order : ByteOrder⦄ → Codec MoveCommand
move_command = record {
  encode = λ v.
      (option vector3).encode v.angular_velocity
      ⧺ i8.encode v.control
      ⧺ (option vector3).encode v.velocity
      ⧺ (option vector3).encode v.orientation
      ⧺ (option vector3).encode v.position
      ⧺ ok [];
  decode = do
    angular_velocity ← (option vector3).decode
    control ← i8.decode
    velocity ← (option vector3).decode
    orientation ← (option vector3).decode
    position ← (option vector3).decode
    pure (record {
      angular_velocity = angular_velocity;
      control = control;
      velocity = velocity;
      orientation = orientation;
      position = position;
    });
}

pub move_command-RoundTrips : ⦃order : ByteOrder⦄ → RoundTrips move_command IsMoveCommand
unfolding move_command
move_command-RoundTrips v h =
    Carries-bind _ _ (option-RoundTrips vector3 IsVector3 vector3-RoundTrips v.angular_velocity h.0)
      (Carries-bind _ _ (i8-RoundTrips v.control h.1) (
        Carries-bind _ _ (option-RoundTrips vector3 IsVector3 vector3-RoundTrips v.velocity h.2) (
          Carries-bind _ _
            (option-RoundTrips vector3 IsVector3 vector3-RoundTrips v.orientation h.3)
            (Carries-bind _ _
              (option-RoundTrips vector3 IsVector3 vector3-RoundTrips v.position h.4)
              (Carries-pure _)))))

pub record BattleMine : Type 0 where
  pub mine_id : Bytes
  pub owner_id : Bytes
  pub position : Option Vector3

abbrev pub IsBattleMine : BattleMine → Type 0
IsBattleMine v = IsString v.mine_id × IsString v.owner_id × IsOption IsVector3 v.position

unfoldable pub battle_mine : ⦃order : ByteOrder⦄ → Codec BattleMine
battle_mine = record {
  encode = λ v.
      string.encode v.mine_id
      ⧺ string.encode v.owner_id
      ⧺ (option vector3).encode v.position
      ⧺ ok [];
  decode = do
    mine_id ← string.decode
    owner_id ← string.decode
    position ← (option vector3).decode
    pure (record { mine_id = mine_id; owner_id = owner_id; position = position });
}

pub battle_mine-RoundTrips : ⦃order : ByteOrder⦄ → RoundTrips battle_mine IsBattleMine
unfolding battle_mine
battle_mine-RoundTrips v h = Carries-bind _ _ (string-RoundTrips v.mine_id h.0) (
    Carries-bind _ _ (string-RoundTrips v.owner_id h.1) (
      Carries-bind _ _ (option-RoundTrips vector3 IsVector3 vector3-RoundTrips v.position h.2)
        (Carries-pure _)))

pub record BattleMineCc : Type 0 where
  pub method_1937 : ResourceReference
  pub method_1406 : ℕ
  pub method_2407 : List BattleMine
  pub method_2285 : ResourceReference
  pub method_2634 : ResourceReference
  pub method_2393 : ResourceReference
  pub explosion_mark_texture : ResourceReference
  pub explosion_sound : ResourceReference
  pub method_2024 : ℕ
  pub method_2226 : ResourceReference
  pub method_1764 : ResourceReference
  pub impact_force : ℕ
  pub method_2618 : ResourceReference
  pub name_45 : ℕ
  pub method_2145 : ResourceReference
  pub method_472 : ℕ
  pub radius : ℕ
  pub method_1957 : ResourceReference

abbrev pub IsBattleMineCc : BattleMineCc → Type 0
IsBattleMineCc v =
    IsResourceReference v.method_1937
    × IsU32 v.method_1406
    × IsVec IsBattleMine v.method_2407
    × IsResourceReference v.method_2285
    × IsResourceReference v.method_2634
    × IsResourceReference v.method_2393
    × IsResourceReference v.explosion_mark_texture
    × IsResourceReference v.explosion_sound
    × IsU32 v.method_2024
    × IsResourceReference v.method_2226
    × IsResourceReference v.method_1764
    × IsU32 v.impact_force
    × IsResourceReference v.method_2618
    × IsU32 v.name_45
    × IsResourceReference v.method_2145
    × IsU32 v.method_472
    × IsU32 v.radius
    × IsResourceReference v.method_1957

unfoldable pub battle_mine_cc : ⦃order : ByteOrder⦄ → Codec BattleMineCc
battle_mine_cc = record {
  encode = λ v.
      resource_reference.encode v.method_1937
      ⧺ i32.encode v.method_1406
      ⧺ (vec battle_mine).encode v.method_2407
      ⧺ resource_reference.encode v.method_2285
      ⧺ resource_reference.encode v.method_2634
      ⧺ resource_reference.encode v.method_2393
      ⧺ resource_reference.encode v.explosion_mark_texture
      ⧺ resource_reference.encode v.explosion_sound
      ⧺ f32.encode v.method_2024
      ⧺ resource_reference.encode v.method_2226
      ⧺ resource_reference.encode v.method_1764
      ⧺ f32.encode v.impact_force
      ⧺ resource_reference.encode v.method_2618
      ⧺ f32.encode v.name_45
      ⧺ resource_reference.encode v.method_2145
      ⧺ f32.encode v.method_472
      ⧺ f32.encode v.radius
      ⧺ resource_reference.encode v.method_1957
      ⧺ ok [];
  decode = do
    method_1937 ← resource_reference.decode
    method_1406 ← i32.decode
    method_2407 ← (vec battle_mine).decode
    method_2285 ← resource_reference.decode
    method_2634 ← resource_reference.decode
    method_2393 ← resource_reference.decode
    explosion_mark_texture ← resource_reference.decode
    explosion_sound ← resource_reference.decode
    method_2024 ← f32.decode
    method_2226 ← resource_reference.decode
    method_1764 ← resource_reference.decode
    impact_force ← f32.decode
    method_2618 ← resource_reference.decode
    name_45 ← f32.decode
    method_2145 ← resource_reference.decode
    method_472 ← f32.decode
    radius ← f32.decode
    method_1957 ← resource_reference.decode
    pure (record {
      method_1937 = method_1937;
      method_1406 = method_1406;
      method_2407 = method_2407;
      method_2285 = method_2285;
      method_2634 = method_2634;
      method_2393 = method_2393;
      explosion_mark_texture = explosion_mark_texture;
      explosion_sound = explosion_sound;
      method_2024 = method_2024;
      method_2226 = method_2226;
      method_1764 = method_1764;
      impact_force = impact_force;
      method_2618 = method_2618;
      name_45 = name_45;
      method_2145 = method_2145;
      method_472 = method_472;
      radius = radius;
      method_1957 = method_1957;
    });
}

pub battle_mine_cc-RoundTrips : ⦃order : ByteOrder⦄ → RoundTrips battle_mine_cc IsBattleMineCc
unfolding battle_mine_cc
battle_mine_cc-RoundTrips v h = Carries-bind _ _ (resource_reference-RoundTrips v.method_1937 h.0) (
    Carries-bind _ _ (i32-RoundTrips v.method_1406 h.1) (
      Carries-bind _ _
        (vec-RoundTrips battle_mine IsBattleMine battle_mine-RoundTrips v.method_2407 h.2)
        (Carries-bind _ _ (resource_reference-RoundTrips v.method_2285 h.3) (
          Carries-bind _ _ (resource_reference-RoundTrips v.method_2634 h.4) (
            Carries-bind _ _ (resource_reference-RoundTrips v.method_2393 h.5) (
              Carries-bind _ _ (resource_reference-RoundTrips v.explosion_mark_texture h.6) (
                Carries-bind _ _ (resource_reference-RoundTrips v.explosion_sound h.7) (
                  Carries-bind _ _ (f32-RoundTrips v.method_2024 h.8) (
                    Carries-bind _ _ (resource_reference-RoundTrips v.method_2226 h.9) (
                      Carries-bind _ _ (resource_reference-RoundTrips v.method_1764 h.10) (
                        Carries-bind _ _ (f32-RoundTrips v.impact_force h.11) (
                          Carries-bind _ _ (resource_reference-RoundTrips v.method_2618 h.12) (
                            Carries-bind _ _ (f32-RoundTrips v.name_45 h.13) (
                              Carries-bind _ _ (resource_reference-RoundTrips v.method_2145 h.14) (
                                Carries-bind _ _ (f32-RoundTrips v.method_472 h.15) (
                                  Carries-bind _ _ (f32-RoundTrips v.radius h.16) (
                                    Carries-bind _ _
                                      (resource_reference-RoundTrips v.method_1957 h.17)
                                      (Carries-pure _))))))))))))))))))

-- Every struct of this file is read back as it was written, if its strings are UTF-8, its numbers
-- fit their types, its vectors are shorter than 2 ^ 32 and no enum in it is unknown.
abbrev pub TanksRoundTrip : ⦃order : ByteOrder⦄ → Type 0
TanksRoundTrip =
    RoundTrips target_tank_damage IsTargetTankDamage
    × RoundTrips target_position IsTargetPosition
    × RoundTrips target_hit IsTargetHit
    × RoundTrips rotate_turret_command IsRotateTurretCommand
    × RoundTrips move_command IsMoveCommand
    × RoundTrips battle_mine IsBattleMine
    × RoundTrips battle_mine_cc IsBattleMineCc

pub tanks_structs-RoundTrip : ⦃order : ByteOrder⦄ → TanksRoundTrip
tanks_structs-RoundTrip = (
  target_tank_damage-RoundTrips, target_position-RoundTrips, target_hit-RoundTrips,
  rotate_turret_command-RoundTrips, move_command-RoundTrips, battle_mine-RoundTrips,
  battle_mine_cc-RoundTrips,
)
