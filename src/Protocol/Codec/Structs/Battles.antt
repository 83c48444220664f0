-- ===== src/Protocol/Codec/Structs/Battles.antt =====
-- The structs of protocol/src/codec/structs.rs about battles and their statistics. A field is written and read in the
-- order of the source, as `codec_struct!` spells it out.
use protanki_protocol_rs.Common.{[], ℕ, Bool, Option, List}
use protanki_protocol_rs.Common.Bytes.{Bytes, IsU32}
use protanki_protocol_rs.Protocol.Error.{ok}
use protanki_protocol_rs.Protocol.Codec.Reader.{
  pure, ◌>>=◌, ◌⧺◌, Codec, RoundTrips, Carries-pure, Carries-bind,
}
use protanki_protocol_rs.Protocol.Codec.Primitives.{ByteOrder, i32, i32-RoundTrips}
use protanki_protocol_rs.Protocol.Codec.Basics.{
  bool, IsAlways, string, IsString, vec, IsVec, option, IsOption,
}
use protanki_protocol_rs.Protocol.Codec.Basics.RoundTrip.{
  bool-RoundTrips, string-RoundTrips, vec-RoundTrips, option-RoundTrips,
}
use protanki_protocol_rs.Protocol.Codec.Enums.{IsKnown}
use protanki_protocol_rs.Protocol.Codec.Enums.Battle.{
  BattleMode, battle_mode_ordinal, battle_mode, battle_mode-RoundTrips, EquipmentConstraintsMode,
  equipment_constraints_mode_ordinal, equipment_constraints_mode,
  equipment_constraints_mode-RoundTrips, MapTheme, map_theme_ordinal, map_theme,
  map_theme-RoundTrips,
}
use protanki_protocol_rs.Protocol.Codec.Structs.Users.{
  UserInfo, IsUserInfo, user_info, user_info-RoundTrips,
}

pub record BattleLimits : Type 0 where
  pub score_limit : ℕ
  pub time_limit_in_sec : ℕ

abbrev pub IsBattleLimits : BattleLimits → Type 0
IsBattleLimits v = IsU32 v.score_limit × IsU32 v.time_limit_in_sec

unfoldable pub battle_limits : ⦃order : ByteOrder⦄ → Codec BattleLimits
battle_limits = record {
  encode = λ v. i32.encode v.score_limit ⧺ i32.encode v.time_limit_in_sec ⧺ ok [];
  decode = do
    score_limit ← i32.decode
    time_limit_in_sec ← i32.decode
    pure (record { score_limit = score_limit; time_limit_in_sec = time_limit_in_sec });
}

pub battle_limits-RoundTrips : ⦃order : ByteOrder⦄ → RoundTrips battle_limits IsBattleLimits
unfolding battle_limits
battle_limits-RoundTrips v h =
    Carries-bind _ _ (i32-RoundTrips v.score_limit h.0)
      (Carries-bind _ _ (i32-RoundTrips v.time_limit_in_sec h.1) (Carries-pure _))

pub record Range : Type 0 where
  pub max : ℕ
  pub min : ℕ

abbrev pub IsRange : Range → Type 0
IsRange v = IsU32 v.max × IsU32 v.min

unfoldable pub range : ⦃order : ByteOrder⦄ → Codec Range
range = record {
  encode = λ v. i32.encode v.max ⧺ i32.encode v.min ⧺ ok [];
  decode = do
    max ← i32.decode
    min ← i32.decode
    pure (record { max = max; min = min });
}

pub range-RoundTrips : ⦃order : ByteOrder⦄ → RoundTrips range IsRange
unfolding range
range-RoundTrips v h =
    Carries-bind _ _ (i32-RoundTrips v.max h.0)
      (Carries-bind _ _ (i32-RoundTrips v.min h.1) (Carries-pure _))

pub record BattleInfoUser : Type 0 where
  pub kills : ℕ
  pub score : ℕ
  pub suspicious : Bool
  pub user : Bytes

abbrev pub IsBattleInfoUser : BattleInfoUser → Type 0
IsBattleInfoUser v = IsU32 v.kills × IsU32 v.score × IsAlways v.suspicious × IsString v.user

unfoldable pub battle_info_user : ⦃order : ByteOrder⦄ → Codec BattleInfoUser
battle_info_user = record {
  encode = λ v.
      i32.encode v.kills
      ⧺ i32.encode v.score
      ⧺ bool.encode v.suspicious
      ⧺ string.encode v.user
      ⧺ ok [];
  decode = do
    kills ← i32.decode
    score ← i32.decode
    suspicious ← bool.decode
    user ← string.decode
    pure (record { kills = kills; score = score; suspicious = suspicious; user = user });
}

pub battle_info_user-RoundTrips : ⦃order : ByteOrder⦄ → RoundTrips battle_info_user IsBattleInfoUser
unfolding battle_info_user
battle_info_user-RoundTrips v h = Carries-bind _ _ (i32-RoundTrips v.kills h.0) (
    Carries-bind _ _ (i32-RoundTrips v.score h.1) (
      Carries-bind _ _ (bool-RoundTrips v.suspicious h.2)
        (Carries-bind _ _ (string-RoundTrips v.user h.3) (Carries-pure _))))

pub record BattleInfoData : Type 0 where
  pub battle_id : Bytes
  pub map_name : Bytes
  pub mode : BattleMode
  pub private_battle : Bool
  pub pro_battle : Bool
  pub range : Range
  pub server_number : ℕ

abbrev pub IsBattleInfoData : BattleInfoData → Type 0
IsBattleInfoData v =
    IsString v.battle_id
    × IsString v.map_name
    × IsKnown battle_mode_ordinal v.mode
    × IsAlways v.private_battle
    × IsAlways v.pro_battle
    × IsRange v.range
    × IsU32 v.server_number

unfoldable pub battle_info_data : ⦃order : ByteOrder⦄ → Codec BattleInfoData
battle_info_data = record {
  encode = λ v.
      string.encode v.battle_id
      ⧺ string.encode v.map_name
      ⧺ battle_mode.encode v.mode
      ⧺ bool.encode v.private_battle
      ⧺ bool.encode v.pro_battle
      ⧺ range.encode v.range
      ⧺ i32.encode v.server_number
      ⧺ ok [];
  decode = do
    battle_id ← string.decode
    map_name ← string.decode
    mode ← battle_mode.decode
    private_battle ← bool.decode
    pro_battle ← bool.decode
    range ← range.decode
    server_number ← i32.decode
    pure (record {
      battle_id = battle_id;
      map_name = map_name;
      mode = mode;
      private_battle = private_battle;
      pro_battle = pro_battle;
      range = range;
      server_number = server_number;
    });
}

pub battle_info_data-RoundTrips : ⦃order : ByteOrder⦄ → RoundTrips battle_info_data IsBattleInfoData
unfolding battle_info_data
battle_info_data-RoundTrips v h = Carries-bind _ _ (string-RoundTrips v.battle_id h.0) (
    Carries-bind _ _ (string-RoundTrips v.map_name h.1) (
      Carries-bind _ _ (battle_mode-RoundTrips v.mode h.2) (
        Carries-bind _ _ (bool-RoundTrips v.private_battle h.3) (
          Carries-bind _ _ (bool-RoundTrips v.pro_battle h.4) (
            Carries-bind _ _ (range-RoundTrips v.range h.5)
              (Carries-bind _ _ (i32-RoundTrips v.server_number h.6) (Carries-pure _)))))))

pub record BattleNotifierData : Type 0 where
  pub battle_data : BattleInfoData
  pub user_id : Bytes

abbrev pub IsBattleNotifierData : BattleNotifierData → Type 0
IsBattleNotifierData v = IsBattleInfoData v.battle_data × IsString v.user_id

unfoldable pub battle_notifier_data : ⦃order : ByteOrder⦄ → Codec BattleNotifierData
battle_notifier_data = record {
  encode = λ v. battle_info_data.encode v.battle_data ⧺ string.encode v.user_id ⧺ ok [];
  decode = do
    battle_data ← battle_info_data.decode
    user_id ← string.decode
    pure (record { battle_data = battle_data; user_id = user_id });
}

pub battle_notifier_data-RoundTrips :
    ⦃order : ByteOrder⦄ → RoundTrips battle_notifier_data IsBattleNotifierData
unfolding battle_notifier_data
battle_notifier_data-RoundTrips v h =
    Carries-bind _ _ (battle_info_data-RoundTrips v.battle_data h.0)
      (Carries-bind _ _ (string-RoundTrips v.user_id h.1) (Carries-pure _))

pub record BattleCreateParameters : Type 0 where
  pub auto_balance : Bool
  pub battle_mode : BattleMode
  pub equipment_constraints_mode : EquipmentConstraintsMode
  pub friendly_fire : Bool
  pub method_1309 : BattleLimits
  pub map_id : Bytes
  pub max_people_count : ℕ
  pub name : Bytes
  pub parkour_mode : Bool
  pub private_battle : Bool
  pub pro_battle : Bool
  pub rank_range : Range
  pub re_armor_enabled : Bool
  pub theme : MapTheme
  pub without_bonuses : Bool
  pub without_crystals : Bool
  pub without_supplies : Bool

abbrev pub IsBattleCreateParameters : BattleCreateParameters → Type 0
IsBattleCreateParameters v =
    IsAlways v.auto_balance
    × IsKnown battle_mode_ordinal v.battle_mode
    × IsKnown equipment_constraints_mode_ordinal v.equipment_constraints_mode
    × IsAlways v.friendly_fire
    × IsBattleLimits v.method_1309
    × IsString v.map_id
    × IsU32 v.max_people_count
    × IsString v.name
    × IsAlways v.parkour_mode
    × IsAlways v.private_battle
    × IsAlways v.pro_battle
    × IsRange v.rank_range
    × IsAlways v.re_armor_enabled
    × IsKnown map_theme_ordinal v.theme
    × IsAlways v.without_bonuses
    × IsAlways v.without_crystals
    × IsAlways v.without_supplies

unfoldable pub battle_create_parameters : ⦃order : ByteOrder⦄ → Codec BattleCreateParameters
battle_create_parameters = record {
  encode = λ v.
      bool.encode v.auto_balance
      ⧺ battle_mode.encode v.battle_mode
      ⧺ equipment_constraints_mode.encode v.equipment_constraints_mode
      ⧺ bool.encode v.friendly_fire
      ⧺ battle_limits.encode v.method_1309
      ⧺ string.encode v.map_id
      ⧺ i32.encode v.max_people_count
      ⧺ string.encode v.name
      ⧺ bool.encode v.parkour_mode
      ⧺ bool.encode v.private_battle
      ⧺ bool.encode v.pro_battle
      ⧺ range.encode v.rank_range
      ⧺ bool.encode v.re_armor_enabled
      ⧺ map_theme.encode v.theme
      ⧺ bool.encode v.without_bonuses
      ⧺ bool.encode v.without_crystals
      ⧺ bool.encode v.without_supplies
      ⧺ ok [];
  decode = do
    auto_balance ← bool.decode
    battle_mode ← battle_mode.decode
    equipment_constraints_mode ← equipment_constraints_mode.decode
    friendly_fire ← bool.decode
    method_1309 ← battle_limits.decode
    map_id ← string.decode
    max_people_count ← i32.decode
    name ← string.decode
    parkour_mode ← bool.decode
    private_battle ← bool.decode
    pro_battle ← bool.decode
    rank_range ← range.decode
    re_armor_enabled ← bool.decode
    theme ← map_theme.decode
    without_bonuses ← bool.decode
    without_crystals ← bool.decode
    without_supplies ← bool.decode
    pure (record {
      auto_balance = auto_balance;
      battle_mode = battle_mode;
      equipment_constraints_mode = equipment_constraints_mode;
      friendly_fire = friendly_fire;
      method_1309 = method_1309;
      map_id = map_id;
      max_people_count = max_people_count;
      name = name;
      parkour_mode = parkour_mode;
      private_battle = private_battle;
      pro_battle = pro_battle;
      rank_range = rank_range;
      re_armor_enabled = re_armor_enabled;
      theme = theme;
      without_bonuses = without_bonuses;
      without_crystals = without_crystals;
      without_supplies = without_supplies;
    });
}

pub battle_create_parameters-RoundTrips :
    ⦃order : ByteOrder⦄ → RoundTrips battle_create_parameters IsBattleCreateParameters
unfolding battle_create_parameters
battle_create_parameters-RoundTrips v h = Carries-bind _ _ (bool-RoundTrips v.auto_balance h.0) (
    Carries-bind _ _ (battle_mode-RoundTrips v.battle_mode h.1) (
      Carries-bind _ _ (equipment_constraints_mode-RoundTrips v.equipment_constraints_mode h.2) (
        Carries-bind _ _ (bool-RoundTrips v.friendly_fire h.3) (
          Carries-bind _ _ (battle_limits-RoundTrips v.method_1309 h.4) (
            Carries-bind _ _ (string-RoundTrips v.map_id h.5) (
              Carries-bind _ _ (i32-RoundTrips v.max_people_count h.6) (
                Carries-bind _ _ (string-RoundTrips v.name h.7) (
                  Carries-bind _ _ (bool-RoundTrips v.parkour_mode h.8) (
                    Carries-bind _ _ (bool-RoundTrips v.private_battle h.9) (
                      Carries-bind _ _ (bool-RoundTrips v.pro_battle h.10) (
                        Carries-bind _ _ (range-RoundTrips v.rank_range h.11) (
                          Carries-bind _ _ (bool-RoundTrips v.re_armor_enabled h.12) (
                            Carries-bind _ _ (map_theme-RoundTrips v.theme h.13) (
                              Carries-bind _ _ (bool-RoundTrips v.without_bonuses h.14) (
                                Carries-bind _ _ (bool-RoundTrips v.without_crystals h.15) (
                                  Carries-bind _ _ (bool-RoundTrips v.without_supplies h.16)
                                    (Carries-pure _)))))))))))))))))

pub record StatisticsTeamCc : Type 0 where
  pub method_1860 : ℕ
  pub method_2648 : ℕ
  pub method_1840 : List UserInfo
  pub method_1572 : List UserInfo

abbrev pub IsStatisticsTeamCc : StatisticsTeamCc → Type 0
IsStatisticsTeamCc v =
    IsU32 v.method_1860
    × IsU32 v.method_2648
    × IsVec IsUserInfo v.method_1840
    × IsVec IsUserInfo v.method_1572

unfoldable pub statistics_team_cc : ⦃order : ByteOrder⦄ → Codec StatisticsTeamCc
statistics_team_cc = record {
  encode = λ v.
      i32.encode v.method_1860
      ⧺ i32.encode v.method_2648
      ⧺ (vec user_info).encode v.method_1840
      ⧺ (vec user_info).encode v.method_1572
      ⧺ ok [];
  decode = do
    method_1860 ← i32.decode
    method_2648 ← i32.decode
    method_1840 ← (vec user_info).decode
    method_1572 ← (vec user_info).decode
    pure (record {
      method_1860 = method_1860;
      method_2648 = method_2648;
      method_1840 = method_1840;
      method_1572 = method_1572;
    });
}

pub statistics_team_cc-RoundTrips :
    ⦃order : ByteOrder⦄ → RoundTrips statistics_team_cc IsStatisticsTeamCc
unfolding statistics_team_cc
statistics_team_cc-RoundTrips v h = Carries-bind _ _ (i32-RoundTrips v.method_1860 h.0) (
    Carries-bind _ _ (i32-RoundTrips v.method_2648 h.1) (
      Carries-bind _ _ (vec-RoundTrips user_info IsUserInfo user_info-RoundTrips v.method_1840 h.2)
        (Carries-bind _ _
          (vec-RoundTrips user_info IsUserInfo user_info-RoundTrips v.method_1572 h.3)
          (Carries-pure _))))

pub record StatisticsModelCc : Type 0 where
  pub battle_mode : BattleMode
  pub equipment_constraints_mode : EquipmentConstraintsMode
  pub fund : ℕ
  pub method_1309 : BattleLimits
  pub map_name : Bytes
  pub max_people_count : ℕ
  pub parkour_mode : Bool
  pub method_2682 : ℕ
  pub spectator : Bool
  pub method_2378 : Option (List Bytes)
  pub name_5 : ℕ

abbrev pub IsStatisticsModelCc : StatisticsModelCc → Type 0
IsStatisticsModelCc v =
    IsKnown battle_mode_ordinal v.battle_mode
    × IsKnown equipment_constraints_mode_ordinal v.equipment_constraints_mode
    × IsU32 v.fund
    × IsBattleLimits v.method_1309
    × IsString v.map_name
    × IsU32 v.max_people_count
    × IsAlways v.parkour_mode
    × IsU32 v.method_2682
    × IsAlways v.spectator
    × IsOption (IsVec IsString) v.method_2378
    × IsU32 v.name_5

unfoldable pub statistics_model_cc : ⦃order : ByteOrder⦄ → Codec StatisticsModelCc
statistics_model_cc = record {
  encode = λ v.
      battle_mode.encode v.battle_mode
      ⧺ equipment_constraints_mode.encode v.equipment_constraints_mode
      ⧺ i32.encode v.fund
      ⧺ battle_limits.encode v.method_1309
      ⧺ string.encode v.map_name
      ⧺ i32.encode v.max_people_count
      ⧺ bool.encode v.parkour_mode
      ⧺ i32.encode v.method_2682
      ⧺ bool.encode v.spectator
      ⧺ (option (vec string)).encode v.method_2378
      ⧺ i32.encode v.name_5
      ⧺ ok [];
  decode = do
    battle_mode ← battle_mode.decode
    equipment_constraints_mode ← equipment_constraints_mode.decode
    fund ← i32.decode
    method_1309 ← battle_limits.decode
    map_name ← string.decode
    max_people_count ← i32.decode
    parkour_mode ← bool.decode
    method_2682 ← i32.decode
    spectator ← bool.decode
    method_2378 ← (option (vec string)).decode
    name_5 ← i32.decode
    pure (record {
      battle_mode = battle_mode;
      equipment_constraints_mode = equipment_constraints_mode;
      fund = fund;
      method_1309 = method_1309;
      map_name = map_name;
      max_people_count = max_people_count;
      parkour_mode = parkour_mode;
      method_2682 = method_2682;
      spectator = spectator;
      method_2378 = method_2378;
      name_5 = name_5;
    });
}

pub statistics_model_cc-RoundTrips :
    ⦃order : ByteOrder⦄ → RoundTrips statistics_model_cc IsStatisticsModelCc
unfolding statistics_model_cc
statistics_model_cc-RoundTrips v h = Carries-bind _ _ (battle_mode-RoundTrips v.battle_mode h.0) (
    Carries-bind _ _ (equipment_constraints_mode-RoundTrips v.equipment_constraints_mode h.1) (
      Carries-bind _ _ (i32-RoundTrips v.fund h.2) (
        Carries-bind _ _ (battle_limits-RoundTrips v.method_1309 h.3) (
          Carries-bind _ _ (string-RoundTrips v.map_name h.4) (
            Carries-bind _ _ (i32-RoundTrips v.max_people_count h.5) (
              Carries-bind _ _ (bool-RoundTrips v.parkour_mode h.6) (
                Carries-bind _ _ (i32-RoundTrips v.method_2682 h.7) (
                  Carries-bind _ _ (bool-RoundTrips v.spectator h.8) (
                    Carries-bind _ _
                      (option-RoundTrips (vec string) (IsVec IsString)
                        (vec-RoundTrips string IsString string-RoundTrips) v.method_2378 h.9)
                      (Carries-bind _ _ (i32-RoundTrips v.name_5 h.10) (Carries-pure _)))))))))))

pub record StatisticsDmCc : Type 0 where
  pub users_info : List UserInfo

abbrev pub IsStatisticsDmCc : StatisticsDmCc → Type 0
IsStatisticsDmCc v = IsVec IsUserInfo v.users_info

unfoldable pub statistics_dmcc : ⦃order : ByteOrder⦄ → Codec StatisticsDmCc
statistics_dmcc = record {
  encode = λ v. (vec user_info).encode v.users_info ⧺ ok [];
  decode = do
    users_info ← (vec user_info).decode
    pure (record { users_info = users_info });
}

pub statistics_dmcc-RoundTrips : ⦃order : ByteOrder⦄ → RoundTrips statistics_dmcc IsStatisticsDmCc
unfolding statistics_dmcc
statistics_dmcc-RoundTrips v h =
    Carries-bind _ _ (vec-RoundTrips user_info IsUserInfo user_info-RoundTrips v.users_info h)
      (Carries-pure _)

-- Every struct of this file is read back as it was written, if its strings are UTF-8, its numbers
-- fit their types, its vectors are shorter than 2 ^ 32 and no enum in it is unknown.
abbrev pub BattlesRoundTrip : ⦃order : ByteOrder⦄ → Type 0
BattlesRoundTrip =
    RoundTrips battle_limits IsBattleLimits
    × RoundTrips range IsRange
    × RoundTrips battle_info_user IsBattleInfoUser
    × RoundTrips battle_info_data IsBattleInfoData
    × RoundTrips battle_notifier_data IsBattleNotifierData
    × RoundTrips battle_create_parameters IsBattleCreateParameters
    × RoundTrips statistics_team_cc IsStatisticsTeamCc
    × RoundTrips statistics_model_cc IsStatisticsModelCc
    × RoundTrips statistics_dmcc IsStatisticsDmCc

pub battles_structs-RoundTrip : ⦃order : ByteOrder⦄ → BattlesRoundTrip
battles_structs-RoundTrip = (
  battle_limits-RoundTrips, range-RoundTrips, battle_info_user-RoundTrips,
  battle_info_data-RoundTrips, battle_notifier_data-RoundTrips, battle_create_parameters-RoundTrips,
  statistics_team_cc-RoundTrips, statistics_model_cc-RoundTrips, statistics_dmcc-RoundTrips,
)
