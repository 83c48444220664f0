-- ===== src/Protocol/Codec/Enums/Battle.antt =====
-- The enums of protocol/src/codec/enums.rs about battles.
-- `unknown` has no number on the wire.
use protanki_protocol_rs.Common.{ℕ, ◌==◌, if◌then◌else◌, arith, Option}
use protanki_protocol_rs.Protocol.Codec.Reader.{Codec, RoundTrips}
use protanki_protocol_rs.Protocol.Codec.Primitives.{ByteOrder}
use protanki_protocol_rs.Protocol.Codec.Enums.{codec_enum, IsKnown, IsEnum, codec_enum-RoundTrips}

pub data MapTheme : Type 0 where
  unknown summer winter space summer_day summer_night winter_day : MapTheme

unfoldable pub map_theme_ordinal : MapTheme → Option ℕ
map_theme_ordinal MapTheme.unknown = Option.none
map_theme_ordinal MapTheme.summer = Option.some 0
map_theme_ordinal MapTheme.winter = Option.some 1
map_theme_ordinal MapTheme.space = Option.some 2
map_theme_ordinal MapTheme.summer_day = Option.some 3
map_theme_ordinal MapTheme.summer_night = Option.some 4
map_theme_ordinal MapTheme.winter_day = Option.some 5

unfoldable pub map_theme_of : ℕ → Option MapTheme
map_theme_of code =
    if code == 0
    then Option.some MapTheme.summer
    else if code == 1
    then Option.some MapTheme.winter
    else if code == 2
    then Option.some MapTheme.space
    else if code == 3
    then Option.some MapTheme.summer_day
    else if code == 4
    then Option.some MapTheme.summer_night
    else if code == 5
    then Option.some MapTheme.winter_day
    else Option.none

unfoldable pub map_theme : ⦃order : ByteOrder⦄ → Codec MapTheme
unfolding codec_enum map_theme_ordinal map_theme_of
map_theme = codec_enum map_theme_ordinal map_theme_of

pub map_theme-IsEnum : IsEnum map_theme_ordinal map_theme_of
unfolding map_theme_ordinal map_theme_of
map_theme-IsEnum = record { back = λ v code e. ground arith; forth = λ code v e. ground arith }

pub map_theme-RoundTrips : ⦃order : ByteOrder⦄ → RoundTrips map_theme (IsKnown map_theme_ordinal)
unfolding map_theme
map_theme-RoundTrips = codec_enum-RoundTrips map_theme_ordinal map_theme_of map_theme-IsEnum

pub data IsisState : Type 0 where
  unknown off idle healing damaging : IsisState

unfoldable pub isis_state_ordinal : IsisState → Option ℕ
isis_state_ordinal IsisState.unknown = Option.none
isis_state_ordinal IsisState.off = Option.some 0
isis_state_ordinal IsisState.idle = Option.some 1
isis_state_ordinal IsisState.healing = Option.some 2
isis_state_ordinal IsisState.damaging = Option.some 3

unfoldable pub isis_state_of : ℕ → Option IsisState
isis_state_of code =
    if code == 0
    then Option.some IsisState.off
    else if code == 1
    then Option.some IsisState.idle
    else if code == 2
    then Option.some IsisState.healing
    else if code == 3
    then Option.some IsisState.damaging
    else Option.none

unfoldable pub isis_state : ⦃order : ByteOrder⦄ → Codec IsisState
unfolding codec_enum isis_state_ordinal isis_state_of
isis_state = codec_enum isis_state_ordinal isis_state_of

pub isis_state-IsEnum : IsEnum isis_state_ordinal isis_state_of
unfolding isis_state_ordinal isis_state_of
isis_state-IsEnum = record { back = λ v code e. ground arith; forth = λ code v e. ground arith }

pub isis_state-RoundTrips : ⦃order : ByteOrder⦄ → RoundTrips isis_state (IsKnown isis_state_ordinal)
unfolding isis_state
isis_state-RoundTrips = codec_enum-RoundTrips isis_state_ordinal isis_state_of isis_state-IsEnum

pub data EquipmentConstraintsMode : Type 0 where
  unknown none hornet_railgun wasp_railgun hornet_wasp_railgun : EquipmentConstraintsMode

unfoldable pub equipment_constraints_mode_ordinal : EquipmentConstraintsMode → Option ℕ
equipment_constraints_mode_ordinal EquipmentConstraintsMode.unknown = Option.none
equipment_constraints_mode_ordinal EquipmentConstraintsMode.none = Option.some 0
equipment_constraints_mode_ordinal EquipmentConstraintsMode.hornet_railgun = Option.some 1
equipment_constraints_mode_ordinal EquipmentConstraintsMode.wasp_railgun = Option.some 2
equipment_constraints_mode_ordinal EquipmentConstraintsMode.hornet_wasp_railgun = Option.some 3

unfoldable pub equipment_constraints_mode_of : ℕ → Option EquipmentConstraintsMode
equipment_constraints_mode_of code =
    if code == 0
    then Option.some EquipmentConstraintsMode.none
    else if code == 1
    then Option.some EquipmentConstraintsMode.hornet_railgun
    else if code == 2
    then Option.some EquipmentConstraintsMode.wasp_railgun
    else if code == 3
    then Option.some EquipmentConstraintsMode.hornet_wasp_railgun
    else Option.none

unfoldable pub equipment_constraints_mode : ⦃order : ByteOrder⦄ → Codec EquipmentConstraintsMode
unfolding codec_enum equipment_constraints_mode_ordinal equipment_constraints_mode_of
equipment_constraints_mode =
    codec_enum equipment_constraints_mode_ordinal equipment_constraints_mode_of

pub equipment_constraints_mode-IsEnum :
    IsEnum equipment_constraints_mode_ordinal equipment_constraints_mode_of
unfolding equipment_constraints_mode_ordinal equipment_constraints_mode_of
equipment_constraints_mode-IsEnum = record {
  back = λ v code e. ground arith;
  forth = λ code v e. ground arith;
}

pub equipment_constraints_mode-RoundTrips :
    ⦃order : ByteOrder⦄
    → RoundTrips equipment_constraints_mode (IsKnown equipment_constraints_mode_ordinal)
unfolding equipment_constraints_mode
equipment_constraints_mode-RoundTrips =
    codec_enum-RoundTrips equipment_constraints_mode_ordinal equipment_constraints_mode_of
      equipment_constraints_mode-IsEnum

pub data DamageIndicatorType : Type 0 where
  unknown normal critical fatal heal : DamageIndicatorType

unfoldable pub damage_indicator_type_ordinal : DamageIndicatorType → Option ℕ
damage_indicator_type_ordinal DamageIndicatorType.unknown = Option.none
damage_indicator_type_ordinal DamageIndicatorType.normal = Option.some 0
damage_indicator_type_ordinal DamageIndicatorType.critical = Option.some 1
damage_indicator_type_ordinal DamageIndicatorType.fatal = Option.some 2
damage_indicator_type_ordinal DamageIndicatorType.heal = Option.some 3

unfoldable pub damage_indicator_type_of : ℕ → Option DamageIndicatorType
damage_indicator_type_of code =
    if code == 0
    then Option.some DamageIndicatorType.normal
    else if code == 1
    then Option.some DamageIndicatorType.critical
    else if code == 2
    then Option.some DamageIndicatorType.fatal
    else if code == 3
    then Option.some DamageIndicatorType.heal
    else Option.none

unfoldable pub damage_indicator_type : ⦃order : ByteOrder⦄ → Codec DamageIndicatorType
unfolding codec_enum damage_indicator_type_ordinal damage_indicator_type_of
damage_indicator_type = codec_enum damage_indicator_type_ordinal damage_indicator_type_of

pub damage_indicator_type-IsEnum : IsEnum damage_indicator_type_ordinal damage_indicator_type_of
unfolding damage_indicator_type_ordinal damage_indicator_type_of
damage_indicator_type-IsEnum = record {
  back = λ v code e. ground arith;
  forth = λ code v e. ground arith;
}

pub damage_indicator_type-RoundTrips :
    ⦃order : ByteOrder⦄ → RoundTrips damage_indicator_type (IsKnown damage_indicator_type_ordinal)
unfolding damage_indicator_type
damage_indicator_type-RoundTrips =
    codec_enum-RoundTrips damage_indicator_type_ordinal damage_indicator_type_of
      damage_indicator_type-IsEnum

pub data ControlPointState : Type 0 where
  unknown red blue neutral : ControlPointState

unfoldable pub control_point_state_ordinal : ControlPointState → Option ℕ
control_point_state_ordinal ControlPointState.unknown = Option.none
control_point_state_ordinal ControlPointState.red = Option.some 0
control_point_state_ordinal ControlPointState.blue = Option.some 1
control_point_state_ordinal ControlPointState.neutral = Option.some 2

unfoldable pub control_point_state_of : ℕ → Option ControlPointState
control_point_state_of code =
    if code == 0
    then Option.some ControlPointState.red
    else if code == 1
    then Option.some ControlPointState.blue
    else if code == 2
    then Option.some ControlPointState.neutral
    else Option.none

unfoldable pub control_point_state : ⦃order : ByteOrder⦄ → Codec ControlPointState
unfolding codec_enum control_point_state_ordinal control_point_state_of
control_point_state = codec_enum control_point_state_ordinal control_point_state_of

pub control_point_state-IsEnum : IsEnum control_point_state_ordinal control_point_state_of
unfolding control_point_state_ordinal control_point_state_of
control_point_state-IsEnum = record {
  back = λ v code e. ground arith;
  forth = λ code v e. ground arith;
}

pub control_point_state-RoundTrips :
    ⦃order : ByteOrder⦄ → RoundTrips control_point_state (IsKnown control_point_state_ordinal)
unfolding control_point_state
control_point_state-RoundTrips =
    codec_enum-RoundTrips control_point_state_ordinal control_point_state_of
      control_point_state-IsEnum

pub data BattleTeam : Type 0 where
  unknown red blue none : BattleTeam

unfoldable pub battle_team_ordinal : BattleTeam → Option ℕ
battle_team_ordinal BattleTeam.unknown = Option.none
battle_team_ordinal BattleTeam.red = Option.some 0
battle_team_ordinal BattleTeam.blue = Option.some 1
battle_team_ordinal BattleTeam.none = Option.some 2

unfoldable pub battle_team_of : ℕ → Option BattleTeam
battle_team_of code =
    if code == 0
    then Option.some BattleTeam.red
    else if code == 1
    then Option.some BattleTeam.blue
    else if code == 2
    then Option.some BattleTeam.none
    else Option.none

unfoldable pub battle_team : ⦃order : ByteOrder⦄ → Codec BattleTeam
unfolding codec_enum battle_team_ordinal battle_team_of
battle_team = codec_enum battle_team_ordinal battle_team_of

pub battle_team-IsEnum : IsEnum battle_team_ordinal battle_team_of
unfolding battle_team_ordinal battle_team_of
battle_team-IsEnum = record { back = λ v code e. ground arith; forth = λ code v e. ground arith }

pub battle_team-RoundTrips :
    ⦃order : ByteOrder⦄ → RoundTrips battle_team (IsKnown battle_team_ordinal)
unfolding battle_team
battle_team-RoundTrips = codec_enum-RoundTrips battle_team_ordinal battle_team_of battle_team-IsEnum

pub data BattleSuspicionLevel : Type 0 where
  unknown none low high : BattleSuspicionLevel

unfoldable pub battle_suspicion_level_ordinal : BattleSuspicionLevel → Option ℕ
battle_suspicion_level_ordinal BattleSuspicionLevel.unknown = Option.none
battle_suspicion_level_ordinal BattleSuspicionLevel.none = Option.some 0
battle_suspicion_level_ordinal BattleSuspicionLevel.low = Option.some 1
battle_suspicion_level_ordinal BattleSuspicionLevel.high = Option.some 2

unfoldable pub battle_suspicion_level_of : ℕ → Option BattleSuspicionLevel
battle_suspicion_level_of code =
    if code == 0
    then Option.some BattleSuspicionLevel.none
    else if code == 1
    then Option.some BattleSuspicionLevel.low
    else if code == 2
    then Option.some BattleSuspicionLevel.high
    else Option.none

unfoldable pub battle_suspicion_level : ⦃order : ByteOrder⦄ → Codec BattleSuspicionLevel
unfolding codec_enum battle_suspicion_level_ordinal battle_suspicion_level_of
battle_suspicion_level = codec_enum battle_suspicion_level_ordinal battle_suspicion_level_of

pub battle_suspicion_level-IsEnum : IsEnum battle_suspicion_level_ordinal battle_suspicion_level_of
unfolding battle_suspicion_level_ordinal battle_suspicion_level_of
battle_suspicion_level-IsEnum = record {
  back = λ v code e. ground arith;
  forth = λ code v e. ground arith;
}

pub battle_suspicion_level-RoundTrips :
    ⦃order : ByteOrder⦄ → RoundTrips battle_suspicion_level (IsKnown battle_suspicion_level_ordinal)
unfolding battle_suspicion_level
battle_suspicion_level-RoundTrips =
    codec_enum-RoundTrips battle_suspicion_level_ordinal battle_suspicion_level_of
      battle_suspicion_level-IsEnum

pub data BattleMode : Type 0 where
  unknown dm tdm ctf cp as_mode : BattleMode

unfoldable pub battle_mode_ordinal : BattleMode → Option ℕ
battle_mode_ordinal BattleMode.unknown = Option.none
battle_mode_ordinal BattleMode.dm = Option.some 0
battle_mode_ordinal BattleMode.tdm = Option.some 1
battle_mode_ordinal BattleMode.ctf = Option.some 2
battle_mode_ordinal BattleMode.cp = Option.some 3
battle_mode_ordinal BattleMode.as_mode = Option.some 4

unfoldable pub battle_mode_of : ℕ → Option BattleMode
battle_mode_of code =
    if code == 0
    then Option.some BattleMode.dm
    else if code == 1
    then Option.some BattleMode.tdm
    else if code == 2
    then Option.some BattleMode.ctf
    else if code == 3
    then Option.some BattleMode.cp
    else if code == 4
    then Option.some BattleMode.as_mode
    else Option.none

unfoldable pub battle_mode : ⦃order : ByteOrder⦄ → Codec BattleMode
unfolding codec_enum battle_mode_ordinal battle_mode_of
battle_mode = codec_enum battle_mode_ordinal battle_mode_of

pub battle_mode-IsEnum : IsEnum battle_mode_ordinal battle_mode_of
unfolding battle_mode_ordinal battle_mode_of
battle_mode-IsEnum = record { back = λ v code e. ground arith; forth = λ code v e. ground arith }

pub battle_mode-RoundTrips :
    ⦃order : ByteOrder⦄ → RoundTrips battle_mode (IsKnown battle_mode_ordinal)
unfolding battle_mode
battle_mode-RoundTrips = codec_enum-RoundTrips battle_mode_ordinal battle_mode_of battle_mode-IsEnum
