-- ===== src/Protocol/Codec/Structs/Users.antt =====
-- The structs of protocol/src/codec/structs.rs about users and their notifications. A field is written and read in the
-- order of the source, as `codec_struct!` spells it out.
use protanki_protocol_rs.Common.{[], ℕ, Bool, Option, List}
use protanki_protocol_rs.Common.Bytes.{Bytes, IsByte, IsU32}
use protanki_protocol_rs.Protocol.Error.{ok}
use protanki_protocol_rs.Protocol.Codec.Reader.{
  pure, ◌>>=◌, ◌⧺◌, Codec, RoundTrips, Carries-pure, Carries-bind,
}
use protanki_protocol_rs.Protocol.Codec.Primitives.{
  ByteOrder, f32, f32-RoundTrips, i32, i32-RoundTrips, i8, i8-RoundTrips, Vector3, IsVector3,
  vector3, vector3-RoundTrips,
}
use protanki_protocol_rs.Protocol.Codec.Basics.{
  bool, IsAlways, string, IsString, vec, IsVec, option, IsOption,
}
use protanki_protocol_rs.Protocol.Codec.Basics.RoundTrip.{
  bool-RoundTrips, string-RoundTrips, vec-RoundTrips, option-RoundTrips,
}
use protanki_protocol_rs.Protocol.Codec.Enums.{IsKnown}
use protanki_protocol_rs.Protocol.Codec.Enums.Lobby.{
  ChatModeratorLevel, chat_moderator_level_ordinal, chat_moderator_level,
  chat_moderator_level-RoundTrips,
}

pub record Class16 : Type 0 where
  pub uid : Bytes
  pub user_id : Bytes

abbrev pub IsClass16 : Class16 → Type 0
IsClass16 v = IsString v.uid × IsString v.user_id

unfoldable pub class_16 : ⦃order : ByteOrder⦄ → Codec Class16
class_16 = record {
  encode = λ v. string.encode v.uid ⧺ string.encode v.user_id ⧺ ok [];
  decode = do
    uid ← string.decode
    user_id ← string.decode
    pure (record { uid = uid; user_id = user_id });
}

pub class_16-RoundTrips : ⦃order : ByteOrder⦄ → RoundTrips class_16 IsClass16
unfolding class_16
class_16-RoundTrips v h =
    Carries-bind _ _ (string-RoundTrips v.uid h.0)
      (Carries-bind _ _ (string-RoundTrips v.user_id h.1) (Carries-pure _))

pub record Class14 : Type 0 where
  pub bonus_id : Bytes
  pub name_38 : ℕ
  pub method_219 : Option Vector3

abbrev pub IsClass14 : Class14 → Type 0
IsClass14 v = IsString v.bonus_id × IsU32 v.name_38 × IsOption IsVector3 v.method_219

unfoldable pub class_14 : ⦃order : ByteOrder⦄ → Codec Class14
class_14 = record {
  encode = λ v.
      string.encode v.bonus_id
      ⧺ i32.encode v.name_38
      ⧺ (option vector3).encode v.method_219
      ⧺ ok [];
  decode = do
    bonus_id ← string.decode
    name_38 ← i32.decode
    method_219 ← (option vector3).decode
    pure (record { bonus_id = bonus_id; name_38 = name_38; method_219 = method_219 });
}

pub class_14-RoundTrips : ⦃order : ByteOrder⦄ → RoundTrips class_14 IsClass14
unfolding class_14
class_14-RoundTrips v h = Carries-bind _ _ (string-RoundTrips v.bonus_id h.0) (
    Carries-bind _ _ (i32-RoundTrips v.name_38 h.1) (
      Carries-bind _ _ (option-RoundTrips vector3 IsVector3 vector3-RoundTrips v.method_219 h.2)
        (Carries-pure _)))

pub record UserStatus : Type 0 where
  pub chat_moderator_level : ChatModeratorLevel
  pub ip : Bytes
  pub rank_index : ℕ
  pub uid : Bytes

abbrev pub IsUserStatus : UserStatus → Type 0
IsUserStatus v =
    IsKnown chat_moderator_level_ordinal v.chat_moderator_level
    × IsString v.ip
    × IsU32 v.rank_index
    × IsString v.uid

unfoldable pub user_status : ⦃order : ByteOrder⦄ → Codec UserStatus
user_status = record {
  encode = λ v.
      chat_moderator_level.encode v.chat_moderator_level
      ⧺ string.encode v.ip
      ⧺ i32.encode v.rank_index
      ⧺ string.encode v.uid
      ⧺ ok [];
  decode = do
    chat_moderator_level ← chat_moderator_level.decode
    ip ← string.decode
    rank_index ← i32.decode
    uid ← string.decode
    pure (record {
      chat_moderator_level = chat_moderator_level;
      ip = ip;
      rank_index = rank_index;
      uid = uid;
    });
}

pub user_status-RoundTrips : ⦃order : ByteOrder⦄ → RoundTrips user_status IsUserStatus
unfolding user_status
user_status-RoundTrips v h =
    Carries-bind _ _ (chat_moderator_level-RoundTrips v.chat_moderator_level h.0) (
      Carries-bind _ _ (string-RoundTrips v.ip h.1) (
        Carries-bind _ _ (i32-RoundTrips v.rank_index h.2)
          (Carries-bind _ _ (string-RoundTrips v.uid h.3) (Carries-pure _))))

pub record UserStat : Type 0 where
  pub deaths : ℕ
  pub kills : ℕ
  pub score : ℕ
  pub user : Bytes

abbrev pub IsUserStat : UserStat → Type 0
IsUserStat v = IsU32 v.deaths × IsU32 v.kills × IsU32 v.score × IsString v.user

unfoldable pub user_stat : ⦃order : ByteOrder⦄ → Codec UserStat
user_stat = record {
  encode = λ v.
      i32.encode v.deaths ⧺ i32.encode v.kills ⧺ i32.encode v.score ⧺ string.encode v.user ⧺ ok [];
  decode = do
    deaths ← i32.decode
    kills ← i32.decode
    score ← i32.decode
    user ← string.decode
    pure (record { deaths = deaths; kills = kills; score = score; user = user });
}

pub user_stat-RoundTrips : ⦃order : ByteOrder⦄ → RoundTrips user_stat IsUserStat
unfolding user_stat
user_stat-RoundTrips v h = Carries-bind _ _ (i32-RoundTrips v.deaths h.0) (
    Carries-bind _ _ (i32-RoundTrips v.kills h.1) (
      Carries-bind _ _ (i32-RoundTrips v.score h.2)
        (Carries-bind _ _ (string-RoundTrips v.user h.3) (Carries-pure _))))

pub record UserReward : Type 0 where
  pub name_6 : ℕ
  pub name_59 : ℕ
  pub reward : ℕ
  pub user_id : Bytes

abbrev pub IsUserReward : UserReward → Type 0
IsUserReward v = IsU32 v.name_6 × IsU32 v.name_59 × IsU32 v.reward × IsString v.user_id

unfoldable pub user_reward : ⦃order : ByteOrder⦄ → Codec UserReward
user_reward = record {
  encode = λ v.
      i32.encode v.name_6
      ⧺ i32.encode v.name_59
      ⧺ i32.encode v.reward
      ⧺ string.encode v.user_id
      ⧺ ok [];
  decode = do
    name_6 ← i32.decode
    name_59 ← i32.decode
    reward ← i32.decode
    user_id ← string.decode
    pure (record { name_6 = name_6; name_59 = name_59; reward = reward; user_id = user_id });
}

pub user_reward-RoundTrips : ⦃order : ByteOrder⦄ → RoundTrips user_reward IsUserReward
unfolding user_reward
user_reward-RoundTrips v h = Carries-bind _ _ (i32-RoundTrips v.name_6 h.0) (
    Carries-bind _ _ (i32-RoundTrips v.name_59 h.1) (
      Carries-bind _ _ (i32-RoundTrips v.reward h.2)
        (Carries-bind _ _ (string-RoundTrips v.user_id h.3) (Carries-pure _))))

pub record UserPropertyCc : Type 0 where
  pub crystals : ℕ
  pub current_rank_score : ℕ
  pub duration_crystal_abonement : ℕ
  pub has_double_crystal : Bool
  pub next_rank_score : ℕ
  pub place : ℕ
  pub rank : ℕ
  pub rating : ℕ
  pub score : ℕ
  pub server_number : ℕ
  pub id : Bytes
  pub user_profile_url : Bytes

abbrev pub IsUserPropertyCc : UserPropertyCc → Type 0
IsUserPropertyCc v =
    IsU32 v.crystals
    × IsU32 v.current_rank_score
    × IsU32 v.duration_crystal_abonement
    × IsAlways v.has_double_crystal
    × IsU32 v.next_rank_score
    × IsU32 v.place
    × IsByte v.rank
    × IsU32 v.rating
    × IsU32 v.score
    × IsU32 v.server_number
    × IsString v.id
    × IsString v.user_profile_url

unfoldable pub user_property_cc : ⦃order : ByteOrder⦄ → Codec UserPropertyCc
user_property_cc = record {
  encode = λ v.
      i32.encode v.crystals
      ⧺ i32.encode v.current_rank_score
      ⧺ i32.encode v.duration_crystal_abonement
      ⧺ bool.encode v.has_double_crystal
      ⧺ i32.encode v.next_rank_score
      ⧺ i32.encode v.place
      ⧺ i8.encode v.rank
      ⧺ f32.encode v.rating
      ⧺ i32.encode v.score
      ⧺ i32.encode v.server_number
      ⧺ string.encode v.id
      ⧺ string.encode v.user_profile_url
      ⧺ ok [];
  decode = do
    crystals ← i32.decode
    current_rank_score ← i32.decode
    duration_crystal_abonement ← i32.decode
    has_double_crystal ← bool.decode
    next_rank_score ← i32.decode
    place ← i32.decode
    rank ← i8.decode
    rating ← f32.decode
    score ← i32.decode
    server_number ← i32.decode
    id ← string.decode
    user_profile_url ← string.decode
    pure (record {
      crystals = crystals;
      current_rank_score = current_rank_score;
      duration_crystal_abonement = duration_crystal_abonement;
      has_double_crystal = has_double_crystal;
      next_rank_score = next_rank_score;
      place = place;
      rank = rank;
      rating = rating;
      score = score;
      server_number = server_number;
      id = id;
      user_profile_url = user_profile_url;
    });
}

pub user_property_cc-RoundTrips : ⦃order : ByteOrder⦄ → RoundTrips user_property_cc IsUserPropertyCc
unfolding user_property_cc
user_property_cc-RoundTrips v h = Carries-bind _ _ (i32-RoundTrips v.crystals h.0) (
    Carries-bind _ _ (i32-RoundTrips v.current_rank_score h.1) (
      Carries-bind _ _ (i32-RoundTrips v.duration_crystal_abonement h.2) (
        Carries-bind _ _ (bool-RoundTrips v.has_double_crystal h.3) (
          Carries-bind _ _ (i32-RoundTrips v.next_rank_score h.4) (
            Carries-bind _ _ (i32-RoundTrips v.place h.5) (
              Carries-bind _ _ (i8-RoundTrips v.rank h.6) (
                Carries-bind _ _ (f32-RoundTrips v.rating h.7) (
                  Carries-bind _ _ (i32-RoundTrips v.score h.8) (
                    Carries-bind _ _ (i32-RoundTrips v.server_number h.9) (
                      Carries-bind _ _ (string-RoundTrips v.id h.10) (
                        Carries-bind _ _ (string-RoundTrips v.user_profile_url h.11)
                          (Carries-pure _))))))))))))

pub record UserInfo : Type 0 where
  pub chat_moderator_level : ChatModeratorLevel
  pub deaths : ℕ
  pub kills : ℕ
  pub rank : ℕ
  pub score : ℕ
  pub uid : Bytes

abbrev pub IsUserInfo : UserInfo → Type 0
IsUserInfo v =
    IsKnown chat_moderator_level_ordinal v.chat_moderator_level
    × IsU32 v.deaths
    × IsU32 v.kills
    × IsByte v.rank
    × IsU32 v.score
    × IsString v.uid

unfoldable pub user_info : ⦃order : ByteOrder⦄ → Codec UserInfo
user_info = record {
  encode = λ v.
      chat_moderator_level.encode v.chat_moderator_level
      ⧺ i32.encode v.deaths
      ⧺ i32.encode v.kills
      ⧺ i8.encode v.rank
      ⧺ i32.encode v.score
      ⧺ string.encode v.uid
      ⧺ ok [];
  decode = do
    chat_moderator_level ← chat_moderator_level.decode
    deaths ← i32.decode
    kills ← i32.decode
    rank ← i8.decode
    score ← i32.decode
    uid ← string.decode
    pure (record {
      chat_moderator_level = chat_moderator_level;
      deaths = deaths;
      kills = kills;
      rank = rank;
      score = score;
      uid = uid;
    });
}

pub user_info-RoundTrips : ⦃order : ByteOrder⦄ → RoundTrips user_info IsUserInfo
unfolding user_info
user_info-RoundTrips v h =
    Carries-bind _ _ (chat_moderator_level-RoundTrips v.chat_moderator_level h.0) (
      Carries-bind _ _ (i32-RoundTrips v.deaths h.1) (
        Carries-bind _ _ (i32-RoundTrips v.kills h.2) (
          Carries-bind _ _ (i8-RoundTrips v.rank h.3) (
            Carries-bind _ _ (i32-RoundTrips v.score h.4)
              (Carries-bind _ _ (string-RoundTrips v.uid h.5) (Carries-pure _))))))

pub record UserContainerCc : Type 0 where
  pub users : Option (List Bytes)

abbrev pub IsUserContainerCc : UserContainerCc → Type 0
IsUserContainerCc v = IsOption (IsVec IsString) v.users

unfoldable pub user_container_cc : ⦃order : ByteOrder⦄ → Codec UserContainerCc
user_container_cc = record {
  encode = λ v. (option (vec string)).encode v.users ⧺ ok [];
  decode = do
    users ← (option (vec string)).decode
    pure (record { users = users });
}

pub user_container_cc-RoundTrips :
    ⦃order : ByteOrder⦄ → RoundTrips user_container_cc IsUserContainerCc
unfolding user_container_cc
user_container_cc-RoundTrips v h =
    Carries-bind _ _
      (option-RoundTrips (vec string) (IsVec IsString)
        (vec-RoundTrips string IsString string-RoundTrips) v.users h)
      (Carries-pure _)

pub record UidNotifierData : Type 0 where
  pub uid : Bytes
  pub user_id : Bytes

abbrev pub IsUidNotifierData : UidNotifierData → Type 0
IsUidNotifierData v = IsString v.uid × IsString v.user_id

unfoldable pub uid_notifier_data : ⦃order : ByteOrder⦄ → Codec UidNotifierData
uid_notifier_data = record {
  encode = λ v. string.encode v.uid ⧺ string.encode v.user_id ⧺ ok [];
  decode = do
    uid ← string.decode
    user_id ← string.decode
    pure (record { uid = uid; user_id = user_id });
}

pub uid_notifier_data-RoundTrips :
    ⦃order : ByteOrder⦄ → RoundTrips uid_notifier_data IsUidNotifierData
unfolding uid_notifier_data
uid_notifier_data-RoundTrips v h =
    Carries-bind _ _ (string-RoundTrips v.uid h.0)
      (Carries-bind _ _ (string-RoundTrips v.user_id h.1) (Carries-pure _))

pub record OnlineNotifierData : Type 0 where
  pub online : Bool
  pub server_number : ℕ
  pub user_id : Bytes

abbrev pub IsOnlineNotifierData : OnlineNotifierData → Type 0
IsOnlineNotifierData v = IsAlways v.online × IsU32 v.server_number × IsString v.user_id

unfoldable pub online_notifier_data : ⦃order : ByteOrder⦄ → Codec OnlineNotifierData
online_notifier_data = record {
  encode = λ v. bool.encode v.online ⧺ i32.encode v.server_number ⧺ string.encode v.user_id ⧺ ok [];
  decode = do
    online ← bool.decode
    server_number ← i32.decode
    user_id ← string.decode
    pure (record { online = online; server_number = server_number; user_id = user_id });
}

pub online_notifier_data-RoundTrips :
    ⦃order : ByteOrder⦄ → RoundTrips online_notifier_data IsOnlineNotifierData
unfolding online_notifier_data
online_notifier_data-RoundTrips v h = Carries-bind _ _ (bool-RoundTrips v.online h.0) (
    Carries-bind _ _ (i32-RoundTrips v.server_number h.1)
      (Carries-bind _ _ (string-RoundTrips v.user_id h.2) (Carries-pure _)))

pub record RankNotifierData : Type 0 where
  pub rank : ℕ
  pub user_id : Bytes

abbrev pub IsRankNotifierData : RankNotifierData → Type 0
IsRankNotifierData v = IsU32 v.rank × IsString v.user_id

unfoldable pub rank_notifier_data : ⦃order : ByteOrder⦄ → Codec RankNotifierData
rank_notifier_data = record {
  encode = λ v. i32.encode v.rank ⧺ string.encode v.user_id ⧺ ok [];
  decode = do
    rank ← i32.decode
    user_id ← string.decode
    pure (record { rank = rank; user_id = user_id });
}

pub rank_notifier_data-RoundTrips :
    ⦃order : ByteOrder⦄ → RoundTrips rank_notifier_data IsRankNotifierData
unfolding rank_notifier_data
rank_notifier_data-RoundTrips v h =
    Carries-bind _ _ (i32-RoundTrips v.rank h.0)
      (Carries-bind _ _ (string-RoundTrips v.user_id h.1) (Carries-pure _))

-- Every struct of this file is read back as it was written, if its strings are UTF-8, its numbers
-- fit their types, its vectors are shorter than 2 ^ 32 and no enum in it is unknown.
abbrev pub UsersRoundTrip : ⦃order : ByteOrder⦄ → Type 0
UsersRoundTrip =
    RoundTrips class_16 IsClass16
    × RoundTrips class_14 IsClass14
    × RoundTrips user_status IsUserStatus
    × RoundTrips user_stat IsUserStat
    × RoundTrips user_reward IsUserReward
    × RoundTrips user_property_cc IsUserPropertyCc
    × RoundTrips user_info IsUserInfo
    × RoundTrips user_container_cc IsUserContainerCc
    × RoundTrips uid_notifier_data IsUidNotifierData
    × RoundTrips online_notifier_data IsOnlineNotifierData
    × RoundTrips rank_notifier_data IsRankNotifierData

pub users_structs-RoundTrip : ⦃order : ByteOrder⦄ → UsersRoundTrip
users_structs-RoundTrip = (
  class_16-RoundTrips, class_14-RoundTrips, user_status-RoundTrips, user_stat-RoundTrips,
  user_reward-RoundTrips, user_property_cc-RoundTrips, user_info-RoundTrips,
  user_container_cc-RoundTrips, uid_notifier_data-RoundTrips, online_notifier_data-RoundTrips,
  rank_notifier_data-RoundTrips,
)
