-- ===== src/Protocol/Codec/Structs/Lobby.antt =====
-- The structs of protocol/src/codec/structs.rs about quests, the garage, the chat and invitations. A field is written and read in the
-- order of the source, as `codec_struct!` spells it out.
use protanki_protocol_rs.Common.{[], ℕ, Bool, Option, List}
use protanki_protocol_rs.Common.Bytes.{Bytes, IsU32}
use protanki_protocol_rs.Protocol.Error.{ok}
use protanki_protocol_rs.Protocol.Codec.Reader.{
  pure, ◌>>=◌, ◌⧺◌, Codec, RoundTrips, Carries-pure, Carries-bind,
}
use protanki_protocol_rs.Protocol.Codec.Primitives.{ByteOrder, i32, i32-RoundTrips}
use protanki_protocol_rs.Protocol.Codec.Basics.{
  bool, IsAlways, string, IsString, vec, IsVec, option, IsOption,
}
use protanki_protocol_rs.Protocol.Codec.Basics.RoundTrip.{
  bool-RoundTrips, string-RoundTrips, vec-RoundTrips, option-RoundTrips,
}
use protanki_protocol_rs.Protocol.Codec.Enums.{IsKnown}
use protanki_protocol_rs.Protocol.Codec.Enums.Lobby.{
  ChatModeratorLevel, chat_moderator_level_ordinal, chat_moderator_level,
  chat_moderator_level-RoundTrips, ItemCategory, item_category_ordinal, item_category,
  item_category-RoundTrips, ItemViewCategory, item_view_category_ordinal, item_view_category,
  item_view_category-RoundTrips,
}
use protanki_protocol_rs.Protocol.Codec.Enums.Battle.{
  BattleMode, battle_mode_ordinal, battle_mode, battle_mode-RoundTrips,
}
use protanki_protocol_rs.Protocol.Codec.Resources.{
  ResourceReference, IsResourceReference, resource_reference, resource_reference-RoundTrips,
}
use protanki_protocol_rs.Protocol.Codec.Structs.Users.{
  UserStatus, IsUserStatus, user_status, user_status-RoundTrips,
}

pub record WeeklyQuestRewardItem : Type 0 where
  pub count : ℕ
  pub method_2511 : ResourceReference

abbrev pub IsWeeklyQuestRewardItem : WeeklyQuestRewardItem → Type 0
IsWeeklyQuestRewardItem v = IsU32 v.count × IsResourceReference v.method_2511

unfoldable pub weekly_quest_reward_item : ⦃order : ByteOrder⦄ → Codec WeeklyQuestRewardItem
weekly_quest_reward_item = record {
  encode = λ v. i32.encode v.count ⧺ resource_reference.encode v.method_2511 ⧺ ok [];
  decode = do
    count ← i32.decode
    method_2511 ← resource_reference.decode
    pure (record { count = count; method_2511 = method_2511 });
}

pub weekly_quest_reward_item-RoundTrips :
    ⦃order : ByteOrder⦄ → RoundTrips weekly_quest_reward_item IsWeeklyQuestRewardItem
unfolding weekly_quest_reward_item
weekly_quest_reward_item-RoundTrips v h =
    Carries-bind _ _ (i32-RoundTrips v.count h.0)
      (Carries-bind _ _ (resource_reference-RoundTrips v.method_2511 h.1) (Carries-pure _))

pub record WeeklyQuestDescription : Type 0 where
  pub method_2704 : ℕ
  pub name_23 : ℕ
  pub method_798 : Bool
  pub name_35 : ResourceReference
  pub name_61 : ResourceReference

abbrev pub IsWeeklyQuestDescription : WeeklyQuestDescription → Type 0
IsWeeklyQuestDescription v =
    IsU32 v.method_2704
    × IsU32 v.name_23
    × IsAlways v.method_798
    × IsResourceReference v.name_35
    × IsResourceReference v.name_61

unfoldable pub weekly_quest_description : ⦃order : ByteOrder⦄ → Codec WeeklyQuestDescription
weekly_quest_description = record {
  encode = λ v.
      i32.encode v.method_2704
      ⧺ i32.encode v.name_23
      ⧺ bool.encode v.method_798
      ⧺ resource_reference.encode v.name_35
      ⧺ resource_reference.encode v.name_61
      ⧺ ok [];
  decode = do
    method_2704 ← i32.decode
    name_23 ← i32.decode
    method_798 ← bool.decode
    name_35 ← resource_reference.decode
    name_61 ← resource_reference.decode
    pure (record {
      method_2704 = method_2704;
      name_23 = name_23;
      method_798 = method_798;
      name_35 = name_35;
      name_61 = name_61;
    });
}

pub weekly_quest_description-RoundTrips :
    ⦃order : ByteOrder⦄ → RoundTrips weekly_quest_description IsWeeklyQuestDescription
unfolding weekly_quest_description
weekly_quest_description-RoundTrips v h = Carries-bind _ _ (i32-RoundTrips v.method_2704 h.0) (
    Carries-bind _ _ (i32-RoundTrips v.name_23 h.1) (
      Carries-bind _ _ (bool-RoundTrips v.method_798 h.2) (
        Carries-bind _ _ (resource_reference-RoundTrips v.name_35 h.3)
          (Carries-bind _ _ (resource_reference-RoundTrips v.name_61 h.4) (Carries-pure _)))))

pub record DailyQuestPrizeInfo : Type 0 where
  pub count : ℕ
  pub name : Bytes

abbrev pub IsDailyQuestPrizeInfo : DailyQuestPrizeInfo → Type 0
IsDailyQuestPrizeInfo v = IsU32 v.count × IsString v.name

unfoldable pub daily_quest_prize_info : ⦃order : ByteOrder⦄ → Codec DailyQuestPrizeInfo
daily_quest_prize_info = record {
  encode = λ v. i32.encode v.count ⧺ string.encode v.name ⧺ ok [];
  decode = do
    count ← i32.decode
    name ← string.decode
    pure (record { count = count; name = name });
}

pub daily_quest_prize_info-RoundTrips :
    ⦃order : ByteOrder⦄ → RoundTrips daily_quest_prize_info IsDailyQuestPrizeInfo
unfolding daily_quest_prize_info
daily_quest_prize_info-RoundTrips v h =
    Carries-bind _ _ (i32-RoundTrips v.count h.0)
      (Carries-bind _ _ (string-RoundTrips v.name h.1) (Carries-pure _))

pub record DailyQuestInfo : Type 0 where
  pub method_2718 : Bool
  pub description : Bytes
  pub method_2630 : ℕ
  pub image : ResourceReference
  pub method_562 : List DailyQuestPrizeInfo
  pub progress : ℕ
  pub method_2366 : ℕ

abbrev pub IsDailyQuestInfo : DailyQuestInfo → Type 0
IsDailyQuestInfo v =
    IsAlways v.method_2718
    × IsString v.description
    × IsU32 v.method_2630
    × IsResourceReference v.image
    × IsVec IsDailyQuestPrizeInfo v.method_562
    × IsU32 v.progress
    × IsU32 v.method_2366

unfoldable pub daily_quest_info : ⦃order : ByteOrder⦄ → Codec DailyQuestInfo
daily_quest_info = record {
  encode = λ v.
      bool.encode v.method_2718
      ⧺ string.encode v.description
      ⧺ i32.encode v.method_2630
      ⧺ resource_reference.encode v.image
      ⧺ (vec daily_quest_prize_info).encode v.method_562
      ⧺ i32.encode v.progress
      ⧺ i32.encode v.method_2366
      ⧺ ok [];
  decode = do
    method_2718 ← bool.decode
    description ← string.decode
    method_2630 ← i32.decode
    image ← resource_reference.decode
    method_562 ← (vec daily_quest_prize_info).decode
    progress ← i32.decode
    method_2366 ← i32.decode
    pure (record {
      method_2718 = method_2718;
      description = description;
      method_2630 = method_2630;
      image = image;
      method_562 = method_562;
      progress = progress;
      method_2366 = method_2366;
    });
}

pub daily_quest_info-RoundTrips : ⦃order : ByteOrder⦄ → RoundTrips daily_quest_info IsDailyQuestInfo
unfolding daily_quest_info
daily_quest_info-RoundTrips v h = Carries-bind _ _ (bool-RoundTrips v.method_2718 h.0) (
    Carries-bind _ _ (string-RoundTrips v.description h.1) (
      Carries-bind _ _ (i32-RoundTrips v.method_2630 h.2) (
        Carries-bind _ _ (resource_reference-RoundTrips v.image h.3) (
          Carries-bind _ _
            (vec-RoundTrips daily_quest_prize_info IsDailyQuestPrizeInfo
              daily_quest_prize_info-RoundTrips v.method_562 h.4)
            (Carries-bind _ _ (i32-RoundTrips v.progress h.5)
              (Carries-bind _ _ (i32-RoundTrips v.method_2366 h.6) (Carries-pure _)))))))

pub record GarageItemInfo : Type 0 where
  pub category : ItemCategory
  pub item_view_category : ItemViewCategory
  pub modification_index : ℕ
  pub mounted : Bool
  pub name : Bytes
  pub position : ℕ
  pub premium_item : Bool
  pub preview : ResourceReference
  pub remaing_time_in_ms : ℕ

abbrev pub IsGarageItemInfo : GarageItemInfo → Type 0
IsGarageItemInfo v =
    IsKnown item_category_ordinal v.category
    × IsKnown item_view_category_ordinal v.item_view_category
    × IsU32 v.modification_index
    × IsAlways v.mounted
    × IsString v.name
    × IsU32 v.position
    × IsAlways v.premium_item
    × IsResourceReference v.preview
    × IsU32 v.remaing_time_in_ms

unfoldable pub garage_item_info : ⦃order : ByteOrder⦄ → Codec GarageItemInfo
garage_item_info = record {
  encode = λ v.
      item_category.encode v.category
      ⧺ item_view_category.encode v.item_view_category
      ⧺ i32.encode v.modification_index
      ⧺ bool.encode v.mounted
      ⧺ string.encode v.name
      ⧺ i32.encode v.position
      ⧺ bool.encode v.premium_item
      ⧺ resource_reference.encode v.preview
      ⧺ i32.encode v.remaing_time_in_ms
      ⧺ ok [];
  decode = do
    category ← item_category.decode
    item_view_category ← item_view_category.decode
    modification_index ← i32.decode
    mounted ← bool.decode
    name ← string.decode
    position ← i32.decode
    premium_item ← bool.decode
    preview ← resource_reference.decode
    remaing_time_in_ms ← i32.decode
    pure (record {
      category = category;
      item_view_category = item_view_category;
      modification_index = modification_index;
      mounted = mounted;
      name = name;
      position = position;
      premium_item = premium_item;
      preview = preview;
      remaing_time_in_ms = remaing_time_in_ms;
    });
}

pub garage_item_info-RoundTrips : ⦃order : ByteOrder⦄ → RoundTrips garage_item_info IsGarageItemInfo
unfolding garage_item_info
garage_item_info-RoundTrips v h = Carries-bind _ _ (item_category-RoundTrips v.category h.0) (
    Carries-bind _ _ (item_view_category-RoundTrips v.item_view_category h.1) (
      Carries-bind _ _ (i32-RoundTrips v.modification_index h.2) (
        Carries-bind _ _ (bool-RoundTrips v.mounted h.3) (
          Carries-bind _ _ (string-RoundTrips v.name h.4) (
            Carries-bind _ _ (i32-RoundTrips v.position h.5) (
              Carries-bind _ _ (bool-RoundTrips v.premium_item h.6) (
                Carries-bind _ _ (resource_reference-RoundTrips v.preview h.7) (
                  Carries-bind _ _ (i32-RoundTrips v.remaing_time_in_ms h.8)
                    (Carries-pure _)))))))))

pub record BonusInfoCc : Type 0 where
  pub bottom_text : Bytes
  pub image : ResourceReference
  pub top_text : Bytes

abbrev pub IsBonusInfoCc : BonusInfoCc → Type 0
IsBonusInfoCc v = IsString v.bottom_text × IsResourceReference v.image × IsString v.top_text

unfoldable pub bonus_info_cc : ⦃order : ByteOrder⦄ → Codec BonusInfoCc
bonus_info_cc = record {
  encode = λ v.
      string.encode v.bottom_text
      ⧺ resource_reference.encode v.image
      ⧺ string.encode v.top_text
      ⧺ ok [];
  decode = do
    bottom_text ← string.decode
    image ← resource_reference.decode
    top_text ← string.decode
    pure (record { bottom_text = bottom_text; image = image; top_text = top_text });
}

pub bonus_info_cc-RoundTrips : ⦃order : ByteOrder⦄ → RoundTrips bonus_info_cc IsBonusInfoCc
unfolding bonus_info_cc
bonus_info_cc-RoundTrips v h = Carries-bind _ _ (string-RoundTrips v.bottom_text h.0) (
    Carries-bind _ _ (resource_reference-RoundTrips v.image h.1)
      (Carries-bind _ _ (string-RoundTrips v.top_text h.2) (Carries-pure _)))

pub record ChatMessage : Type 0 where
  pub source_user_status : Option UserStatus
  pub system : Bool
  pub target_user_status : Option UserStatus
  pub text : Bytes
  pub warning : Bool

abbrev pub IsChatMessage : ChatMessage → Type 0
IsChatMessage v =
    IsOption IsUserStatus v.source_user_status
    × IsAlways v.system
    × IsOption IsUserStatus v.target_user_status
    × IsString v.text
    × IsAlways v.warning

unfoldable pub chat_message : ⦃order : ByteOrder⦄ → Codec ChatMessage
chat_message = record {
  encode = λ v.
      (option user_status).encode v.source_user_status
      ⧺ bool.encode v.system
      ⧺ (option user_status).encode v.target_user_status
      ⧺ string.encode v.text
      ⧺ bool.encode v.warning
      ⧺ ok [];
  decode = do
    source_user_status ← (option user_status).decode
    system ← bool.decode
    target_user_status ← (option user_status).decode
    text ← string.decode
    warning ← bool.decode
    pure (record {
      source_user_status = source_user_status;
      system = system;
      target_user_status = target_user_status;
      text = text;
      warning = warning;
    });
}

pub chat_message-RoundTrips : ⦃order : ByteOrder⦄ → RoundTrips chat_message IsChatMessage
unfolding chat_message
chat_message-RoundTrips v h =
    Carries-bind _ _
      (option-RoundTrips user_status IsUserStatus user_status-RoundTrips v.source_user_status h.0)
      (Carries-bind _ _ (bool-RoundTrips v.system h.1) (
        Carries-bind _ _
          (option-RoundTrips user_status IsUserStatus user_status-RoundTrips v.target_user_status
            h.2)
          (Carries-bind _ _ (string-RoundTrips v.text h.3)
            (Carries-bind _ _ (bool-RoundTrips v.warning h.4) (Carries-pure _)))))

pub record ChatCc : Type 0 where
  pub admin : Bool
  pub antiflood_enabled : Bool
  pub buffer_size : ℕ
  pub chat_enabled : Bool
  pub chat_moderator_level : ChatModeratorLevel
  pub links_white_list : Option (List Bytes)
  pub min_char : ℕ
  pub min_word : ℕ
  pub self_name : Bytes
  pub show_links : Bool
  pub typing_speed_antiflood_enabled : Bool

abbrev pub IsChatCc : ChatCc → Type 0
IsChatCc v =
    IsAlways v.admin
    × IsAlways v.antiflood_enabled
    × IsU32 v.buffer_size
    × IsAlways v.chat_enabled
    × IsKnown chat_moderator_level_ordinal v.chat_moderator_level
    × IsOption (IsVec IsString) v.links_white_list
    × IsU32 v.min_char
    × IsU32 v.min_word
    × IsString v.self_name
    × IsAlways v.show_links
    × IsAlways v.typing_speed_antiflood_enabled

unfoldable pub chat_cc : ⦃order : ByteOrder⦄ → Codec ChatCc
chat_cc = record {
  encode = λ v.
      bool.encode v.admin
      ⧺ bool.encode v.antiflood_enabled
      ⧺ i32.encode v.buffer_size
      ⧺ bool.encode v.chat_enabled
      ⧺ chat_moderator_level.encode v.chat_moderator_level
      ⧺ (option (vec string)).encode v.links_white_list
      ⧺ i32.encode v.min_char
      ⧺ i32.encode v.min_word
      ⧺ string.encode v.self_name
      ⧺ bool.encode v.show_links
      ⧺ bool.encode v.typing_speed_antiflood_enabled
      ⧺ ok [];
  decode = do
    admin ← bool.decode
    antiflood_enabled ← bool.decode
    buffer_size ← i32.decode
    chat_enabled ← bool.decode
    chat_moderator_level ← chat_moderator_level.decode
    links_white_list ← (option (vec string)).decode
    min_char ← i32.decode
    min_word ← i32.decode
    self_name ← string.decode
    show_links ← bool.decode
    typing_speed_antiflood_enabled ← bool.decode
    pure (record {
      admin = admin;
      antiflood_enabled = antiflood_enabled;
      buffer_size = buffer_size;
      chat_enabled = chat_enabled;
      chat_moderator_level = chat_moderator_level;
      links_white_list = links_white_list;
      min_char = min_char;
      min_word = min_word;
      self_name = self_name;
      show_links = show_links;
      typing_speed_antiflood_enabled = typing_speed_antiflood_enabled;
    });
}

pub chat_cc-RoundTrips : ⦃order : ByteOrder⦄ → RoundTrips chat_cc IsChatCc
unfolding chat_cc
chat_cc-RoundTrips v h = Carries-bind _ _ (bool-RoundTrips v.admin h.0) (
    Carries-bind _ _ (bool-RoundTrips v.antiflood_enabled h.1) (
      Carries-bind _ _ (i32-RoundTrips v.buffer_size h.2) (
        Carries-bind _ _ (bool-RoundTrips v.chat_enabled h.3) (
          Carries-bind _ _ (chat_moderator_level-RoundTrips v.chat_moderator_level h.4) (
            Carries-bind _ _
              (option-RoundTrips (vec string) (IsVec IsString)
                (vec-RoundTrips string IsString string-RoundTrips) v.links_white_list h.5)
              (Carries-bind _ _ (i32-RoundTrips v.min_char h.6) (
                Carries-bind _ _ (i32-RoundTrips v.min_word h.7) (
                  Carries-bind _ _ (string-RoundTrips v.self_name h.8) (
                    Carries-bind _ _ (bool-RoundTrips v.show_links h.9) (
                      Carries-bind _ _ (bool-RoundTrips v.typing_speed_antiflood_enabled h.10)
                        (Carries-pure _)))))))))))

pub record BattleInviteMessage : Type 0 where
  pub available_rank : Bool
  pub available_slot : Bool
  pub battle_id : Bytes
  pub map_name : Bytes
  pub mode : BattleMode
  pub no_supplies_battle : Bool
  pub private_battle : Bool

abbrev pub IsBattleInviteMessage : BattleInviteMessage → Type 0
IsBattleInviteMessage v =
    IsAlways v.available_rank
    × IsAlways v.available_slot
    × IsString v.battle_id
    × IsString v.map_name
    × IsKnown battle_mode_ordinal v.mode
    × IsAlways v.no_supplies_battle
    × IsAlways v.private_battle

unfoldable pub battle_invite_message : ⦃order : ByteOrder⦄ → Codec BattleInviteMessage
battle_invite_message = record {
  encode = λ v.
      bool.encode v.available_rank
      ⧺ bool.encode v.available_slot
      ⧺ string.encode v.battle_id
      ⧺ string.encode v.map_name
      ⧺ battle_mode.encode v.mode
      ⧺ bool.encode v.no_supplies_battle
      ⧺ bool.encode v.private_battle
      ⧺ ok [];
  decode = do
    available_rank ← bool.decode
    available_slot ← bool.decode
    battle_id ← string.decode
    map_name ← string.decode
    mode ← battle_mode.decode
    no_supplies_battle ← bool.decode
    private_battle ← bool.decode
    pure (record {
      available_rank = available_rank;
      available_slot = available_slot;
      battle_id = battle_id;
      map_name = map_name;
      mode = mode;
      no_supplies_battle = no_supplies_battle;
      private_battle = private_battle;
    });
}

pub battle_invite_message-RoundTrips :
    ⦃order : ByteOrder⦄ → RoundTrips battle_invite_message IsBattleInviteMessage
unfolding battle_invite_message
battle_invite_message-RoundTrips v h = Carries-bind _ _ (bool-RoundTrips v.available_rank h.0) (
    Carries-bind _ _ (bool-RoundTrips v.available_slot h.1) (
      Carries-bind _ _ (string-RoundTrips v.battle_id h.2) (
        Carries-bind _ _ (string-RoundTrips v.map_name h.3) (
          Carries-bind _ _ (battle_mode-RoundTrips v.mode h.4) (
            Carries-bind _ _ (bool-RoundTrips v.no_supplies_battle h.5)
              (Carries-bind _ _ (bool-RoundTrips v.private_battle h.6) (Carries-pure _)))))))

pub record BattleInviteCc : Type 0 where
  pub method_321 : ResourceReference

abbrev pub IsBattleInviteCc : BattleInviteCc → Type 0
IsBattleInviteCc v = IsResourceReference v.method_321

unfoldable pub battle_invite_cc : ⦃order : ByteOrder⦄ → Codec BattleInviteCc
battle_invite_cc = record {
  encode = λ v. resource_reference.encode v.method_321 ⧺ ok [];
  decode = do
    method_321 ← resource_reference.decode
    pure (record { method_321 = method_321 });
}

pub battle_invite_cc-RoundTrips : ⦃order : ByteOrder⦄ → RoundTrips battle_invite_cc IsBattleInviteCc
unfolding battle_invite_cc
battle_invite_cc-RoundTrips v h =
    Carries-bind _ _ (resource_reference-RoundTrips v.method_321 h) (Carries-pure _)

-- Every struct of this file is read back as it was written, if its strings are UTF-8, its numbers
-- fit their types, its vectors are shorter than 2 ^ 32 and no enum in it is unknown.
abbrev pub LobbyRoundTrip : ⦃order : ByteOrder⦄ → Type 0
LobbyRoundTrip =
    RoundTrips weekly_quest_reward_item IsWeeklyQuestRewardItem
    × RoundTrips weekly_quest_description IsWeeklyQuestDescription
    × RoundTrips daily_quest_prize_info IsDailyQuestPrizeInfo
    × RoundTrips daily_quest_info IsDailyQuestInfo
    × RoundTrips garage_item_info IsGarageItemInfo
    × RoundTrips bonus_info_cc IsBonusInfoCc
    × RoundTrips chat_message IsChatMessage
    × RoundTrips chat_cc IsChatCc
    × RoundTrips battle_invite_message IsBattleInviteMessage
    × RoundTrips battle_invite_cc IsBattleInviteCc

pub lobby_structs-RoundTrip : ⦃order : ByteOrder⦄ → LobbyRoundTrip
lobby_structs-RoundTrip = (
  weekly_quest_reward_item-RoundTrips, weekly_quest_description-RoundTrips,
  daily_quest_prize_info-RoundTrips, daily_quest_info-RoundTrips, garage_item_info-RoundTrips,
  bonus_info_cc-RoundTrips, chat_message-RoundTrips, chat_cc-RoundTrips,
  battle_invite_message-RoundTrips, battle_invite_cc-RoundTrips,
)
