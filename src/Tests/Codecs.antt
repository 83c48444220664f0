-- ===== src/Tests/Codecs.antt =====
-- The codecs of protocol/src/codec at concrete values, over big-endian bytes.
use mathlib.Core.Logic.{◌↔◌}
use protanki_protocol_rs.Common.{◌<◌, ◌≡◌, refl, arith, true, false, none, some, [], ◌∷◌}
use protanki_protocol_rs.Common.Bytes.{Bytes, IsByte}
use protanki_protocol_rs.Protocol.Codec.Reader.{Carries}
use protanki_protocol_rs.Protocol.Codec.Primitives.{Vector3, i32, u8, u8-RoundTrips}
use protanki_protocol_rs.Protocol.Codec.Basics.{string, is_utf8, IsString, vec, option}
use protanki_protocol_rs.Protocol.Codec.Basics.RoundTrip.{string-RoundTrips, containers-RoundTrip}
use protanki_protocol_rs.Protocol.Codec.Length.{length as length_codec}
use protanki_protocol_rs.Protocol.Codec.Length.Limits.{length-Carries_iff}
use protanki_protocol_rs.Protocol.Error.{err, enum_unknown, enum_invalid_ordinal}
use protanki_protocol_rs.Protocol.Codec.Enums.{i32_as_u64}
use protanki_protocol_rs.Protocol.Codec.Enums.Numbering.{enums-IsNumbered}
use protanki_protocol_rs.Tests.Order.{big_endian, to_bytes}
use protanki_protocol_rs.Protocol.Codec.Enums.Lobby.{
  LayoutState, layout_state, Achievement, achievement_ordinal, ChatModeratorLevel,
  chat_moderator_level_ordinal,
}
use protanki_protocol_rs.Protocol.Codec.Enums.Battle.{
  BattleMode, battle_mode_ordinal, ControlPointState, control_point_state_ordinal,
}
use protanki_protocol_rs.Protocol.Codec.Structs.Users.{UserStatus, UserStat, user_stat}
use protanki_protocol_rs.Protocol.Codec.Structs.Account.{AchievementCc, achievement_cc}
use protanki_protocol_rs.Protocol.Codec.Structs.Lobby.{ChatMessage, chat_message}
use protanki_protocol_rs.Protocol.Codec.Structs.Tanks.{MoveCommand, move_command}
use protanki_protocol_rs.Protocol.Codec.Structs.Battles.{BattleInfoData, battle_info_data}
use protanki_protocol_rs.Protocol.Codec.Structs.Flags.{ClientFlag, client_flag}
use protanki_protocol_rs.Protocol.Codec.Structs.Points.{ClientPointData, client_point_data}
use protanki_protocol_rs.Protocol.Codec.Structs.RoundTrips.{
  account_and_lobby-RoundTrip, tanks_and_battles-RoundTrip, flags_and_points-RoundTrip,
}
use protanki_protocol_rs.Tests.Order.{big_endian}

-- "é", of two bytes.
abbrev name : Bytes
name = 0xc3 ∷ 0xa9 ∷ []

name-IsString : IsString name
unfolding is_utf8
name-IsString = record { utf8 = refl; bytes = omega arith; short = omega arith }

-- A leading byte with nothing behind it is refused.
cut_name : is_utf8 (0xc3 ∷ []) ≡ false
unfolding is_utf8
cut_name = refl

string-RoundTrips_example : Carries string.decode (string.encode name) name
string-RoundTrips_example = string-RoundTrips name name-IsString

containers-RoundTrip_example :
    Carries (vec u8).decode ((vec u8).encode name) name
    × Carries (option u8).decode ((option u8).encode (some 7)) (some 7)
containers-RoundTrip_example = (
  (containers-RoundTrip u8 IsByte u8-RoundTrips).0 name (omega arith),
  (containers-RoundTrip u8 IsByte u8-RoundTrips).1 (some 7) (omega arith),
)

length-Carries_iff_example : Carries length_codec.decode (length_codec.encode 200) 200 ↔ (200 < 128)
length-Carries_iff_example = length-Carries_iff 200

abbrev origin : Vector3
origin = record { x = 0; y = 0; z = 0 }

abbrev stat : UserStat
stat = record { deaths = 1; kills = 2; score = 4294967295; user = name }

abbrev achievements : AchievementCc
achievements = record { method_2426 = Achievement.set_email ∷ [] }

abbrev status : UserStatus
status = record {
  chat_moderator_level = ChatModeratorLevel.none;
  ip = [];
  rank_index = 2;
  uid = name;
}

empty-IsString : IsString []
unfolding is_utf8
empty-IsString = record { utf8 = refl; bytes = tt; short = omega arith }

abbrev message : ChatMessage
message = record {
  source_user_status = some status;
  system = false;
  target_user_status = none;
  text = name;
  warning = true;
}

account_and_lobby-RoundTrip_example :
    Carries user_stat.decode (user_stat.encode stat) stat
    × Carries achievement_cc.decode (achievement_cc.encode achievements) achievements
    × Carries chat_message.decode (chat_message.encode message) message
unfolding achievement_ordinal chat_moderator_level_ordinal
account_and_lobby-RoundTrip_example = (
  account_and_lobby-RoundTrip.0.3 stat (omega arith, omega arith, omega arith, name-IsString),
  account_and_lobby-RoundTrip.1.5 achievements (((2, refl), tt), omega arith),
  account_and_lobby-RoundTrip.2.6 message
      (((0, refl), empty-IsString, omega arith, name-IsString), tt, tt, name-IsString, tt),
)

abbrev command : MoveCommand
command = record {
  angular_velocity = none;
  control = 3;
  velocity = some origin;
  orientation = none;
  position = some origin;
}

abbrev battle : BattleInfoData
battle = record {
  battle_id = name;
  map_name = name;
  mode = BattleMode.ctf;
  private_battle = false;
  pro_battle = true;
  range = record { max = 30; min = 1 };
  server_number = 1;
}

tanks_and_battles-RoundTrip_example :
    Carries move_command.decode (move_command.encode command) command
    × Carries battle_info_data.decode (battle_info_data.encode battle) battle
unfolding battle_mode_ordinal
tanks_and_battles-RoundTrip_example = (
  tanks_and_battles-RoundTrip.0.4 command (tt, omega arith, omega arith, tt, omega arith),
  tanks_and_battles-RoundTrip.1.3 battle
      (name-IsString, name-IsString, (2, refl), tt, tt, (omega arith, omega arith), omega arith),
)

abbrev flag : ClientFlag
flag = record { method_1384 = some origin; method_1275 = name; name_81 = none }

abbrev point : ClientPointData
point = record {
  id = 1;
  name = name;
  position = none;
  score = 0;
  method_2190 = 0;
  state = ControlPointState.neutral;
  method_2697 = some (name ∷ []);
}

flags_and_points-RoundTrip_example :
    Carries client_flag.decode (client_flag.encode flag) flag
    × Carries client_point_data.decode (client_point_data.encode point) point
unfolding control_point_state_ordinal
flags_and_points-RoundTrip_example = (
  flags_and_points-RoundTrip.0.0 flag (omega arith, name-IsString, tt),
  flags_and_points-RoundTrip.1.2 point (
    omega arith,
    name-IsString,
    tt,
    omega arith,
    omega arith,
    (2, refl),
    ((name-IsString, tt), omega arith),
  ),
)

enums-IsNumbered_example :
    (layout_state.encode LayoutState.unknown ≡ err enum_unknown)
    × (layout_state.encode LayoutState.payment ≡ i32.encode 2)
    × (layout_state.decode (0 ∷ 0 ∷ 0 ∷ 9 ∷ 5 ∷ []) ≡ err (enum_invalid_ordinal 9))
unfolding i32 to_bytes i32_as_u64
enums-IsNumbered_example = (
  enums-IsNumbered.1.unknown_refused,
  enums-IsNumbered.1.written.2.2.0,
  enums-IsNumbered.1.others_refused 9 (0 ∷ 0 ∷ 0 ∷ 9 ∷ []) (5 ∷ []) (omega arith) (omega arith)
      refl,
)
