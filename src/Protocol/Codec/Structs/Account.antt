-- ===== src/Protocol/Codec/Structs/Account.antt =====
-- The structs of protocol/src/codec/structs.rs about accounts, texts and news. A field is written and read in the
-- order of the source, as `codec_struct!` spells it out.
use protanki_protocol_rs.Common.{[], ℕ, Bool, List}
use protanki_protocol_rs.Common.Bytes.{Bytes, IsByte, IsU32}
use protanki_protocol_rs.Protocol.Error.{ok}
use protanki_protocol_rs.Protocol.Codec.Reader.{
  pure, ◌>>=◌, ◌⧺◌, Codec, RoundTrips, Carries-pure, Carries-bind,
}
use protanki_protocol_rs.Protocol.Codec.Primitives.{
  ByteOrder, f32, f32-RoundTrips, i32, i32-RoundTrips, u8, u8-RoundTrips,
}
use protanki_protocol_rs.Protocol.Codec.Basics.{bool, IsAlways, string, IsString, vec, IsVec}
use protanki_protocol_rs.Protocol.Codec.Basics.RoundTrip.{
  bool-RoundTrips, string-RoundTrips, vec-RoundTrips,
}
use protanki_protocol_rs.Protocol.Codec.Enums.{IsKnown}
use protanki_protocol_rs.Protocol.Codec.Enums.Lobby.{
  Achievement, achievement_ordinal, achievement, achievement-RoundTrips,
}
use protanki_protocol_rs.Protocol.Codec.Resources.{
  ResourceReference, IsResourceReference, resource_reference, resource_reference-RoundTrips,
}

pub record PremiumNotifierData : Type 0 where
  pub premium_time_left_in_seconds : ℕ
  pub user_id : Bytes

abbrev pub IsPremiumNotifierData : PremiumNotifierData → Type 0
IsPremiumNotifierData v = IsU32 v.premium_time_left_in_seconds × IsString v.user_id

unfoldable pub premium_notifier_data : ⦃order : ByteOrder⦄ → Codec PremiumNotifierData
premium_notifier_data = record {
  encode = λ v. i32.encode v.premium_time_left_in_seconds ⧺ string.encode v.user_id ⧺ ok [];
  decode = do
    premium_time_left_in_seconds ← i32.decode
    user_id ← string.decode
    pure
        (record { premium_time_left_in_seconds = premium_time_left_in_seconds; user_id = user_id });
}

pub premium_notifier_data-RoundTrips :
    ⦃order : ByteOrder⦄ → RoundTrips premium_notifier_data IsPremiumNotifierData
unfolding premium_notifier_data
premium_notifier_data-RoundTrips v h =
    Carries-bind _ _ (i32-RoundTrips v.premium_time_left_in_seconds h.0)
      (Carries-bind _ _ (string-RoundTrips v.user_id h.1) (Carries-pure _))

pub record PremiumNotifierCc : Type 0 where
  pub life_time_in_seconds : ℕ

abbrev pub IsPremiumNotifierCc : PremiumNotifierCc → Type 0
IsPremiumNotifierCc v = IsU32 v.life_time_in_seconds

unfoldable pub premium_notifier_cc : ⦃order : ByteOrder⦄ → Codec PremiumNotifierCc
premium_notifier_cc = record {
  encode = λ v. i32.encode v.life_time_in_seconds ⧺ ok [];
  decode = do
    life_time_in_seconds ← i32.decode
    pure (record { life_time_in_seconds = life_time_in_seconds });
}

pub premium_notifier_cc-RoundTrips :
    ⦃order : ByteOrder⦄ → RoundTrips premium_notifier_cc IsPremiumNotifierCc
unfolding premium_notifier_cc
premium_notifier_cc-RoundTrips v h =
    Carries-bind _ _ (i32-RoundTrips v.life_time_in_seconds h) (Carries-pure _)

pub record PremiumAccountAlertCc : Type 0 where
  pub need_show_notification_completion_premium : Bool
  pub need_show_welcome_alert : Bool
  pub reminder_completion_premium_time : ℕ
  pub was_show_alert_for_first_purchase_premium : Bool
  pub was_show_reminder_completion_premium : Bool

abbrev pub IsPremiumAccountAlertCc : PremiumAccountAlertCc → Type 0
IsPremiumAccountAlertCc v =
    IsAlways v.need_show_notification_completion_premium
    × IsAlways v.need_show_welcome_alert
    × IsU32 v.reminder_completion_premium_time
    × IsAlways v.was_show_alert_for_first_purchase_premium
    × IsAlways v.was_show_reminder_completion_premium

unfoldable pub premium_account_alert_cc : ⦃order : ByteOrder⦄ → Codec PremiumAccountAlertCc
premium_account_alert_cc = record {
  encode = λ v.
      bool.encode v.need_show_notification_completion_premium
      ⧺ bool.encode v.need_show_welcome_alert
      ⧺ f32.encode v.reminder_completion_premium_time
      ⧺ bool.encode v.was_show_alert_for_first_purchase_premium
      ⧺ bool.encode v.was_show_reminder_completion_premium
      ⧺ ok [];
  decode = do
    need_show_notification_completion_premium ← bool.decode
    need_show_welcome_alert ← bool.decode
    reminder_completion_premium_time ← f32.decode
    was_show_alert_for_first_purchase_premium ← bool.decode
    was_show_reminder_completion_premium ← bool.decode
    pure (record {
      need_show_notification_completion_premium = need_show_notification_completion_premium;
      need_show_welcome_alert = need_show_welcome_alert;
      reminder_completion_premium_time = reminder_completion_premium_time;
      was_show_alert_for_first_purchase_premium = was_show_alert_for_first_purchase_premium;
      was_show_reminder_completion_premium = was_show_reminder_completion_premium;
    });
}

pub premium_account_alert_cc-RoundTrips :
    ⦃order : ByteOrder⦄ → RoundTrips premium_account_alert_cc IsPremiumAccountAlertCc
unfolding premium_account_alert_cc
premium_account_alert_cc-RoundTrips v h =
    Carries-bind _ _ (bool-RoundTrips v.need_show_notification_completion_premium h.0) (
      Carries-bind _ _ (bool-RoundTrips v.need_show_welcome_alert h.1) (
        Carries-bind _ _ (f32-RoundTrips v.reminder_completion_premium_time h.2) (
          Carries-bind _ _ (bool-RoundTrips v.was_show_alert_for_first_purchase_premium h.3) (
            Carries-bind _ _ (bool-RoundTrips v.was_show_reminder_completion_premium h.4)
              (Carries-pure _)))))

pub record SocialNetworkPanelParams : Type 0 where
  pub authorization_url : Bytes
  pub link_exists : Bool
  pub sn_id : Bytes

abbrev pub IsSocialNetworkPanelParams : SocialNetworkPanelParams → Type 0
IsSocialNetworkPanelParams v =
    IsString v.authorization_url × IsAlways v.link_exists × IsString v.sn_id

unfoldable pub social_network_panel_params : ⦃order : ByteOrder⦄ → Codec SocialNetworkPanelParams
social_network_panel_params = record {
  encode = λ v.
      string.encode v.authorization_url ⧺ bool.encode v.link_exists ⧺ string.encode v.sn_id ⧺ ok [];
  decode = do
    authorization_url ← string.decode
    link_exists ← bool.decode
    sn_id ← string.decode
    pure (record {
      authorization_url = authorization_url;
      link_exists = link_exists;
      sn_id = sn_id;
    });
}

pub social_network_panel_params-RoundTrips :
    ⦃order : ByteOrder⦄ → RoundTrips social_network_panel_params IsSocialNetworkPanelParams
unfolding social_network_panel_params
social_network_panel_params-RoundTrips v h =
    Carries-bind _ _ (string-RoundTrips v.authorization_url h.0) (
      Carries-bind _ _ (bool-RoundTrips v.link_exists h.1)
        (Carries-bind _ _ (string-RoundTrips v.sn_id h.2) (Carries-pure _)))

pub record SocialNetworkPanelCc : Type 0 where
  pub password_created : Bool
  pub social_network_params : List SocialNetworkPanelParams

abbrev pub IsSocialNetworkPanelCc : SocialNetworkPanelCc → Type 0
IsSocialNetworkPanelCc v =
    IsAlways v.password_created × IsVec IsSocialNetworkPanelParams v.social_network_params

unfoldable pub social_network_panel_cc : ⦃order : ByteOrder⦄ → Codec SocialNetworkPanelCc
social_network_panel_cc = record {
  encode = λ v.
      bool.encode v.password_created
      ⧺ (vec social_network_panel_params).encode v.social_network_params
      ⧺ ok [];
  decode = do
    password_created ← bool.decode
    social_network_params ← (vec social_network_panel_params).decode
    pure (record {
      password_created = password_created;
      social_network_params = social_network_params;
    });
}

pub social_network_panel_cc-RoundTrips :
    ⦃order : ByteOrder⦄ → RoundTrips social_network_panel_cc IsSocialNetworkPanelCc
unfolding social_network_panel_cc
social_network_panel_cc-RoundTrips v h = Carries-bind _ _ (bool-RoundTrips v.password_created h.0) (
    Carries-bind _ _
      (vec-RoundTrips social_network_panel_params IsSocialNetworkPanelParams
        social_network_panel_params-RoundTrips v.social_network_params h.1)
      (Carries-pure _))

pub record AchievementCc : Type 0 where
  pub method_2426 : List Achievement

abbrev pub IsAchievementCc : AchievementCc → Type 0
IsAchievementCc v = IsVec (IsKnown achievement_ordinal) v.method_2426

unfoldable pub achievement_cc : ⦃order : ByteOrder⦄ → Codec AchievementCc
achievement_cc = record {
  encode = λ v. (vec achievement).encode v.method_2426 ⧺ ok [];
  decode = do
    method_2426 ← (vec achievement).decode
    pure (record { method_2426 = method_2426 });
}

pub achievement_cc-RoundTrips : ⦃order : ByteOrder⦄ → RoundTrips achievement_cc IsAchievementCc
unfolding achievement_cc
achievement_cc-RoundTrips v h =
    Carries-bind _ _
      (vec-RoundTrips achievement (IsKnown achievement_ordinal) achievement-RoundTrips v.method_2426
        h)
      (Carries-pure _)

pub record StringPair : Type 0 where
  pub key : Bytes
  pub value : Bytes

abbrev pub IsStringPair : StringPair → Type 0
IsStringPair v = IsString v.key × IsString v.value

unfoldable pub string_pair : ⦃order : ByteOrder⦄ → Codec StringPair
string_pair = record {
  encode = λ v. string.encode v.key ⧺ string.encode v.value ⧺ ok [];
  decode = do
    key ← string.decode
    value ← string.decode
    pure (record { key = key; value = value });
}

pub string_pair-RoundTrips : ⦃order : ByteOrder⦄ → RoundTrips string_pair IsStringPair
unfolding string_pair
string_pair-RoundTrips v h =
    Carries-bind _ _ (string-RoundTrips v.key h.0)
      (Carries-bind _ _ (string-RoundTrips v.value h.1) (Carries-pure _))

pub record ImagePair : Type 0 where
  pub key : Bytes
  pub value : List ℕ

abbrev pub IsImagePair : ImagePair → Type 0
IsImagePair v = IsString v.key × IsVec IsByte v.value

unfoldable pub image_pair : ⦃order : ByteOrder⦄ → Codec ImagePair
image_pair = record {
  encode = λ v. string.encode v.key ⧺ (vec u8).encode v.value ⧺ ok [];
  decode = do
    key ← string.decode
    value ← (vec u8).decode
    pure (record { key = key; value = value });
}

pub image_pair-RoundTrips : ⦃order : ByteOrder⦄ → RoundTrips image_pair IsImagePair
unfolding image_pair
image_pair-RoundTrips v h =
    Carries-bind _ _ (string-RoundTrips v.key h.0)
      (Carries-bind _ _ (vec-RoundTrips u8 IsByte u8-RoundTrips v.value h.1) (Carries-pure _))

pub record LocaleStruct : Type 0 where
  pub images : List ImagePair
  pub strings : List StringPair

abbrev pub IsLocaleStruct : LocaleStruct → Type 0
IsLocaleStruct v = IsVec IsImagePair v.images × IsVec IsStringPair v.strings

unfoldable pub locale_struct : ⦃order : ByteOrder⦄ → Codec LocaleStruct
locale_struct = record {
  encode = λ v. (vec image_pair).encode v.images ⧺ (vec string_pair).encode v.strings ⧺ ok [];
  decode = do
    images ← (vec image_pair).decode
    strings ← (vec string_pair).decode
    pure (record { images = images; strings = strings });
}

pub locale_struct-RoundTrips : ⦃order : ByteOrder⦄ → RoundTrips locale_struct IsLocaleStruct
unfolding locale_struct
locale_struct-RoundTrips v h =
    Carries-bind _ _ (vec-RoundTrips image_pair IsImagePair image_pair-RoundTrips v.images h.0) (
      Carries-bind _ _
        (vec-RoundTrips string_pair IsStringPair string_pair-RoundTrips v.strings h.1)
        (Carries-pure _))

pub record NewsItemCc : Type 0 where
  pub image_url : Bytes
  pub news_date : Bytes
  pub news_text : Bytes

abbrev pub IsNewsItemCc : NewsItemCc → Type 0
IsNewsItemCc v = IsString v.image_url × IsString v.news_date × IsString v.news_text

unfoldable pub news_item_cc : ⦃order : ByteOrder⦄ → Codec NewsItemCc
news_item_cc = record {
  encode = λ v.
      string.encode v.image_url ⧺ string.encode v.news_date ⧺ string.encode v.news_text ⧺ ok [];
  decode = do
    image_url ← string.decode
    news_date ← string.decode
    news_text ← string.decode
    pure (record { image_url = image_url; news_date = news_date; news_text = news_text });
}

pub news_item_cc-RoundTrips : ⦃order : ByteOrder⦄ → RoundTrips news_item_cc IsNewsItemCc
unfolding news_item_cc
news_item_cc-RoundTrips v h = Carries-bind _ _ (string-RoundTrips v.image_url h.0) (
    Carries-bind _ _ (string-RoundTrips v.news_date h.1)
      (Carries-bind _ _ (string-RoundTrips v.news_text h.2) (Carries-pure _)))

pub record NewsShowingCc : Type 0 where
  pub news_items : List NewsItemCc

abbrev pub IsNewsShowingCc : NewsShowingCc → Type 0
IsNewsShowingCc v = IsVec IsNewsItemCc v.news_items

unfoldable pub news_showing_cc : ⦃order : ByteOrder⦄ → Codec NewsShowingCc
news_showing_cc = record {
  encode = λ v. (vec news_item_cc).encode v.news_items ⧺ ok [];
  decode = do
    news_items ← (vec news_item_cc).decode
    pure (record { news_items = news_items });
}

pub news_showing_cc-RoundTrips : ⦃order : ByteOrder⦄ → RoundTrips news_showing_cc IsNewsShowingCc
unfolding news_showing_cc
news_showing_cc-RoundTrips v h =
    Carries-bind _ _
      (vec-RoundTrips news_item_cc IsNewsItemCc news_item_cc-RoundTrips v.news_items h)
      (Carries-pure _)

pub record TipItemCc : Type 0 where
  pub preview : ResourceReference

abbrev pub IsTipItemCc : TipItemCc → Type 0
IsTipItemCc v = IsResourceReference v.preview

unfoldable pub tip_item_cc : ⦃order : ByteOrder⦄ → Codec TipItemCc
tip_item_cc = record {
  encode = λ v. resource_reference.encode v.preview ⧺ ok [];
  decode = do
    preview ← resource_reference.decode
    pure (record { preview = preview });
}

pub tip_item_cc-RoundTrips : ⦃order : ByteOrder⦄ → RoundTrips tip_item_cc IsTipItemCc
unfolding tip_item_cc
tip_item_cc-RoundTrips v h =
    Carries-bind _ _ (resource_reference-RoundTrips v.preview h) (Carries-pure _)

-- Every struct of this file is read back as it was written, if its strings are UTF-8, its numbers
-- fit their types, its vectors are shorter than 2 ^ 32 and no enum in it is unknown.
abbrev pub AccountRoundTrip : ⦃order : ByteOrder⦄ → Type 0
AccountRoundTrip =
    RoundTrips premium_notifier_data IsPremiumNotifierData
    × RoundTrips premium_notifier_cc IsPremiumNotifierCc
    × RoundTrips premium_account_alert_cc IsPremiumAccountAlertCc
    × RoundTrips social_network_panel_params IsSocialNetworkPanelParams
    × RoundTrips social_network_panel_cc IsSocialNetworkPanelCc
    × RoundTrips achievement_cc IsAchievementCc
    × RoundTrips string_pair IsStringPair
    × RoundTrips image_pair IsImagePair
    × RoundTrips locale_struct IsLocaleStruct
    × RoundTrips news_item_cc IsNewsItemCc
    × RoundTrips news_showing_cc IsNewsShowingCc
    × RoundTrips tip_item_cc IsTipItemCc

pub account_structs-RoundTrip : ⦃order : ByteOrder⦄ → AccountRoundTrip
account_structs-RoundTrip = (
  premium_notifier_data-RoundTrips, premium_notifier_cc-RoundTrips,
  premium_account_alert_cc-RoundTrips, social_network_panel_params-RoundTrips,
  social_network_panel_cc-RoundTrips, achievement_cc-RoundTrips, string_pair-RoundTrips,
  image_pair-RoundTrips, locale_struct-RoundTrips, news_item_cc-RoundTrips,
  news_showing_cc-RoundTrips, tip_item_cc-RoundTrips,
)
