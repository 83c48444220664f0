-- ===== src/Protocol/Codec/Enums/Lobby.antt =====
-- The enums of protocol/src/codec/enums.rs about accounts, the lobby and the garage.
-- `unknown` has no number on the wire.
use protanki_protocol_rs.Common.{ℕ, ◌==◌, if◌then◌else◌, arith, Option}
use protanki_protocol_rs.Protocol.Codec.Reader.{Codec, RoundTrips}
use protanki_protocol_rs.Protocol.Codec.Primitives.{ByteOrder}
use protanki_protocol_rs.Protocol.Codec.Enums.{codec_enum, IsKnown, IsEnum, codec_enum-RoundTrips}

pub data CaptchaLocation : Type 0 where
  unknown login_form register_form client_startup restore_password_form email_change_hash
        account_settings_form :
      CaptchaLocation

unfoldable pub captcha_location_ordinal : CaptchaLocation → Option ℕ
captcha_location_ordinal CaptchaLocation.unknown = Option.none
captcha_location_ordinal CaptchaLocation.login_form = Option.some 0
captcha_location_ordinal CaptchaLocation.register_form = Option.some 1
captcha_location_ordinal CaptchaLocation.client_startup = Option.some 2
captcha_location_ordinal CaptchaLocation.restore_password_form = Option.some 3
captcha_location_ordinal CaptchaLocation.email_change_hash = Option.some 4
captcha_location_ordinal CaptchaLocation.account_settings_form = Option.some 5

unfoldable pub captcha_location_of : ℕ → Option CaptchaLocation
captcha_location_of code =
    if code == 0
    then Option.some CaptchaLocation.login_form
    else if code == 1
    then Option.some CaptchaLocation.register_form
    else if code == 2
    then Option.some CaptchaLocation.client_startup
    else if code == 3
    then Option.some CaptchaLocation.restore_password_form
    else if code == 4
    then Option.some CaptchaLocation.email_change_hash
    else if code == 5
    then Option.some CaptchaLocation.account_settings_form
    else Option.none

unfoldable pub captcha_location : ⦃order : ByteOrder⦄ → Codec CaptchaLocation
unfolding codec_enum captcha_location_ordinal captcha_location_of
captcha_location = codec_enum captcha_location_ordinal captcha_location_of

pub captcha_location-IsEnum : IsEnum captcha_location_ordinal captcha_location_of
unfolding captcha_location_ordinal captcha_location_of
captcha_location-IsEnum = record {
  back = λ v code e. ground arith;
  forth = λ code v e. ground arith;
}

pub captcha_location-RoundTrips :
    ⦃order : ByteOrder⦄ → RoundTrips captcha_location (IsKnown captcha_location_ordinal)
unfolding captcha_location
captcha_location-RoundTrips =
    codec_enum-RoundTrips captcha_location_ordinal captcha_location_of captcha_location-IsEnum

pub data LayoutState : Type 0 where
  unknown battle_select garage payment battle reload_space : LayoutState

unfoldable pub layout_state_ordinal : LayoutState → Option ℕ
layout_state_ordinal LayoutState.unknown = Option.none
layout_state_ordinal LayoutState.battle_select = Option.some 0
layout_state_ordinal LayoutState.garage = Option.some 1
layout_state_ordinal LayoutState.payment = Option.some 2
layout_state_ordinal LayoutState.battle = Option.some 3
layout_state_ordinal LayoutState.reload_space = Option.some 4

unfoldable pub layout_state_of : ℕ → Option LayoutState
layout_state_of code =
    if code == 0
    then Option.some LayoutState.battle_select
    else if code == 1
    then Option.some LayoutState.garage
    else if code == 2
    then Option.some LayoutState.payment
    else if code == 3
    then Option.some LayoutState.battle
    else if code == 4
    then Option.some LayoutState.reload_space
    else Option.none

unfoldable pub layout_state : ⦃order : ByteOrder⦄ → Codec LayoutState
unfolding codec_enum layout_state_ordinal layout_state_of
layout_state = codec_enum layout_state_ordinal layout_state_of

pub layout_state-IsEnum : IsEnum layout_state_ordinal layout_state_of
unfolding layout_state_ordinal layout_state_of
layout_state-IsEnum = record { back = λ v code e. ground arith; forth = λ code v e. ground arith }

pub layout_state-RoundTrips :
    ⦃order : ByteOrder⦄ → RoundTrips layout_state (IsKnown layout_state_ordinal)
unfolding layout_state
layout_state-RoundTrips =
    codec_enum-RoundTrips layout_state_ordinal layout_state_of layout_state-IsEnum

pub data ValidationStatus : Type 0 where
  unknown too_short too_long not_unique not_match_pattern forbidden correct : ValidationStatus

unfoldable pub validation_status_ordinal : ValidationStatus → Option ℕ
validation_status_ordinal ValidationStatus.unknown = Option.none
validation_status_ordinal ValidationStatus.too_short = Option.some 0
validation_status_ordinal ValidationStatus.too_long = Option.some 1
validation_status_ordinal ValidationStatus.not_unique = Option.some 2
validation_status_ordinal ValidationStatus.not_match_pattern = Option.some 3
validation_status_ordinal ValidationStatus.forbidden = Option.some 4
validation_status_ordinal ValidationStatus.correct = Option.some 5

unfoldable pub validation_status_of : ℕ → Option ValidationStatus
validation_status_of code =
    if code == 0
    then Option.some ValidationStatus.too_short
    else if code == 1
    then Option.some ValidationStatus.too_long
    else if code == 2
    then Option.some ValidationStatus.not_unique
    else if code == 3
    then Option.some ValidationStatus.not_match_pattern
    else if code == 4
    then Option.some ValidationStatus.forbidden
    else if code == 5
    then Option.some ValidationStatus.correct
    else Option.none

unfoldable pub validation_status : ⦃order : ByteOrder⦄ → Codec ValidationStatus
unfolding codec_enum validation_status_ordinal validation_status_of
validation_status = codec_enum validation_status_ordinal validation_status_of

pub validation_status-IsEnum : IsEnum validation_status_ordinal validation_status_of
unfolding validation_status_ordinal validation_status_of
validation_status-IsEnum = record {
  back = λ v code e. ground arith;
  forth = λ code v e. ground arith;
}

pub validation_status-RoundTrips :
    ⦃order : ByteOrder⦄ → RoundTrips validation_status (IsKnown validation_status_ordinal)
unfolding validation_status
validation_status-RoundTrips =
    codec_enum-RoundTrips validation_status_ordinal validation_status_of validation_status-IsEnum

pub data ItemViewCategory : Type 0 where
  unknown weapon armor paint inventory kit special given_presents : ItemViewCategory

unfoldable pub item_view_category_ordinal : ItemViewCategory → Option ℕ
item_view_category_ordinal ItemViewCategory.unknown = Option.none
item_view_category_ordinal ItemViewCategory.weapon = Option.some 0
item_view_category_ordinal ItemViewCategory.armor = Option.some 1
item_view_category_ordinal ItemViewCategory.paint = Option.some 2
item_view_category_ordinal ItemViewCategory.inventory = Option.some 3
item_view_category_ordinal ItemViewCategory.kit = Option.some 4
item_view_category_ordinal ItemViewCategory.special = Option.some 5
item_view_category_ordinal ItemViewCategory.given_presents = Option.some 6

unfoldable pub item_view_category_of : ℕ → Option ItemViewCategory
item_view_category_of code =
    if code == 0
    then Option.some ItemViewCategory.weapon
    else if code == 1
    then Option.some ItemViewCategory.armor
    else if code == 2
    then Option.some ItemViewCategory.paint
    else if code == 3
    then Option.some ItemViewCategory.inventory
    else if code == 4
    then Option.some ItemViewCategory.kit
    else if code == 5
    then Option.some ItemViewCategory.special
    else if code == 6
    then Option.some ItemViewCategory.given_presents
    else Option.none

unfoldable pub item_view_category : ⦃order : ByteOrder⦄ → Codec ItemViewCategory
unfolding codec_enum item_view_category_ordinal item_view_category_of
item_view_category = codec_enum item_view_category_ordinal item_view_category_of

pub item_view_category-IsEnum : IsEnum item_view_category_ordinal item_view_category_of
unfolding item_view_category_ordinal item_view_category_of
item_view_category-IsEnum = record {
  back = λ v code e. ground arith;
  forth = λ code v e. ground arith;
}

pub item_view_category-RoundTrips :
    ⦃order : ByteOrder⦄ → RoundTrips item_view_category (IsKnown item_view_category_ordinal)
unfolding item_view_category
item_view_category-RoundTrips =
    codec_enum-RoundTrips item_view_category_ordinal item_view_category_of item_view_category-IsEnum

pub data ItemCategory : Type 0 where
  unknown weapon armor color inventory plugin kit emblem present given_present : ItemCategory

unfoldable pub item_category_ordinal : ItemCategory → Option ℕ
item_category_ordinal ItemCategory.unknown = Option.none
item_category_ordinal ItemCategory.weapon = Option.some 0
item_category_ordinal ItemCategory.armor = Option.some 1
item_category_ordinal ItemCategory.color = Option.some 2
item_category_ordinal ItemCategory.inventory = Option.some 3
item_category_ordinal ItemCategory.plugin = Option.some 4
item_category_ordinal ItemCategory.kit = Option.some 5
item_category_ordinal ItemCategory.emblem = Option.some 6
item_category_ordinal ItemCategory.present = Option.some 7
item_category_ordinal ItemCategory.given_present = Option.some 8

unfoldable pub item_category_of : ℕ → Option ItemCategory
item_category_of code =
    if code == 0
    then Option.some ItemCategory.weapon
    else if code == 1
    then Option.some ItemCategory.armor
    else if code == 2
    then Option.some ItemCategory.color
    else if code == 3
    then Option.some ItemCategory.inventory
    else if code == 4
    then Option.some ItemCategory.plugin
    else if code == 5
    then Option.some ItemCategory.kit
    else if code == 6
    then Option.some ItemCategory.emblem
    else if code == 7
    then Option.some ItemCategory.present
    else if code == 8
    then Option.some ItemCategory.given_present
    else Option.none

unfoldable pub item_category : ⦃order : ByteOrder⦄ → Codec ItemCategory
unfolding codec_enum item_category_ordinal item_category_of
item_category = codec_enum item_category_ordinal item_category_of

pub item_category-IsEnum : IsEnum item_category_ordinal item_category_of
unfolding item_category_ordinal item_category_of
item_category-IsEnum = record { back = λ v code e. ground arith; forth = λ code v e. ground arith }

pub item_category-RoundTrips :
    ⦃order : ByteOrder⦄ → RoundTrips item_category (IsKnown item_category_ordinal)
unfolding item_category
item_category-RoundTrips =
    codec_enum-RoundTrips item_category_ordinal item_category_of item_category-IsEnum

pub data ChatModeratorLevel : Type 0 where
  unknown none community_manager administrator moderator candidate : ChatModeratorLevel

unfoldable pub chat_moderator_level_ordinal : ChatModeratorLevel → Option ℕ
chat_moderator_level_ordinal ChatModeratorLevel.unknown = Option.none
chat_moderator_level_ordinal ChatModeratorLevel.none = Option.some 0
chat_moderator_level_ordinal ChatModeratorLevel.community_manager = Option.some 1
chat_moderator_level_ordinal ChatModeratorLevel.administrator = Option.some 2
chat_moderator_level_ordinal ChatModeratorLevel.moderator = Option.some 3
chat_moderator_level_ordinal ChatModeratorLevel.candidate = Option.some 4

unfoldable pub chat_moderator_level_of : ℕ → Option ChatModeratorLevel
chat_moderator_level_of code =
    if code == 0
    then Option.some ChatModeratorLevel.none
    else if code == 1
    then Option.some ChatModeratorLevel.community_manager
    else if code == 2
    then Option.some ChatModeratorLevel.administrator
    else if code == 3
    then Option.some ChatModeratorLevel.moderator
    else if code == 4
    then Option.some ChatModeratorLevel.candidate
    else Option.none

unfoldable pub chat_moderator_level : ⦃order : ByteOrder⦄ → Codec ChatModeratorLevel
unfolding codec_enum chat_moderator_level_ordinal chat_moderator_level_of
chat_moderator_level = codec_enum chat_moderator_level_ordinal chat_moderator_level_of

pub chat_moderator_level-IsEnum : IsEnum chat_moderator_level_ordinal chat_moderator_level_of
unfolding chat_moderator_level_ordinal chat_moderator_level_of
chat_moderator_level-IsEnum = record {
  back = λ v code e. ground arith;
  forth = λ code v e. ground arith;
}

pub chat_moderator_level-RoundTrips :
    ⦃order : ByteOrder⦄ → RoundTrips chat_moderator_level (IsKnown chat_moderator_level_ordinal)
unfolding chat_moderator_level
chat_moderator_level-RoundTrips =
    codec_enum-RoundTrips chat_moderator_level_ordinal chat_moderator_level_of
      chat_moderator_level-IsEnum

pub data Achievement : Type 0 where
  unknown first_rank_up first_purchase set_email fight_first_battle first_donate : Achievement

unfoldable pub achievement_ordinal : Achievement → Option ℕ
achievement_ordinal Achievement.unknown = Option.none
achievement_ordinal Achievement.first_rank_up = Option.some 0
achievement_ordinal Achievement.first_purchase = Option.some 1
achievement_ordinal Achievement.set_email = Option.some 2
achievement_ordinal Achievement.fight_first_battle = Option.some 3
achievement_ordinal Achievement.first_donate = Option.some 4

unfoldable pub achievement_of : ℕ → Option Achievement
achievement_of code =
    if code == 0
    then Option.some Achievement.first_rank_up
    else if code == 1
    then Option.some Achievement.first_purchase
    else if code == 2
    then Option.some Achievement.set_email
    else if code == 3
    then Option.some Achievement.fight_first_battle
    else if code == 4
    then Option.some Achievement.first_donate
    else Option.none

unfoldable pub achievement : ⦃order : ByteOrder⦄ → Codec Achievement
unfolding codec_enum achievement_ordinal achievement_of
achievement = codec_enum achievement_ordinal achievement_of

pub achievement-IsEnum : IsEnum achievement_ordinal achievement_of
unfolding achievement_ordinal achievement_of
achievement-IsEnum = record { back = λ v code e. ground arith; forth = λ code v e. ground arith }

pub achievement-RoundTrips :
    ⦃order : ByteOrder⦄ → RoundTrips achievement (IsKnown achievement_ordinal)
unfolding achievement
achievement-RoundTrips = codec_enum-RoundTrips achievement_ordinal achievement_of achievement-IsEnum
