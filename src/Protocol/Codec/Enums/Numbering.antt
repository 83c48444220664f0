-- ===== src/Protocol/Codec/Enums/Numbering.antt =====
-- Which numbers the enums of protocol/src/codec/enums.rs have on the wire. The lists are the variants in
-- the order of the source, where they are numbered from 0.
use protanki_protocol_rs.Common.{
  ℕ, suc, ◌≤◌, ◌≡◌, refl, ◌∙◌, arith, Option, List, [], ◌∷◌, ◌++◌, length,
}
use protanki_protocol_rs.Common.Bytes.{Bytes, IsU32}
use protanki_protocol_rs.Protocol.Error.{ok, err, enum_unknown, enum_invalid_ordinal}
use protanki_protocol_rs.Protocol.Codec.Reader.{Reader, Codec, Carries, Carries-end, fail, ◌>>=◌}
use protanki_protocol_rs.Protocol.Codec.Primitives.{ByteOrder, i32, i32-RoundTrips}
use protanki_protocol_rs.Protocol.Codec.Enums.{
  i32_as_u64, IsEnum, encode_enum, variant_of, codec_enum, variant-Carries,
}
use protanki_protocol_rs.Protocol.Codec.Enums.Lobby.{
  CaptchaLocation, captcha_location, captcha_location_ordinal, captcha_location_of,
  captcha_location-IsEnum, LayoutState, layout_state, layout_state_ordinal, layout_state_of,
  layout_state-IsEnum, ValidationStatus, validation_status, validation_status_ordinal,
  validation_status_of, validation_status-IsEnum, ItemViewCategory, item_view_category,
  item_view_category_ordinal, item_view_category_of, item_view_category-IsEnum, ItemCategory,
  item_category, item_category_ordinal, item_category_of, item_category-IsEnum, ChatModeratorLevel,
  chat_moderator_level, chat_moderator_level_ordinal, chat_moderator_level_of,
  chat_moderator_level-IsEnum, Achievement, achievement, achievement_ordinal, achievement_of,
  achievement-IsEnum,
}
use protanki_protocol_rs.Protocol.Codec.Enums.Battle.{
  MapTheme, map_theme, map_theme_ordinal, map_theme_of, map_theme-IsEnum, IsisState, isis_state,
  isis_state_ordinal, isis_state_of, isis_state-IsEnum, EquipmentConstraintsMode,
  equipment_constraints_mode, equipment_constraints_mode_ordinal, equipment_constraints_mode_of,
  equipment_constraints_mode-IsEnum, DamageIndicatorType, damage_indicator_type,
  damage_indicator_type_ordinal, damage_indicator_type_of, damage_indicator_type-IsEnum,
  ControlPointState, control_point_state, control_point_state_ordinal, control_point_state_of,
  control_point_state-IsEnum, BattleTeam, battle_team, battle_team_ordinal, battle_team_of,
  battle_team-IsEnum, BattleSuspicionLevel, battle_suspicion_level, battle_suspicion_level_ordinal,
  battle_suspicion_level_of, battle_suspicion_level-IsEnum, BattleMode, battle_mode,
  battle_mode_ordinal, battle_mode_of, battle_mode-IsEnum,
}

module _ ⦃order : ByteOrder⦄ {E : Type 0} where
  -- Each variant is written as its number, and read back from that number.
  abbrev pub IsWritten : Codec E → ℕ → List E → Type 0
  IsWritten c n [] = Unit {0}
  IsWritten c n (v ∷ variants) =
      (c.encode v ≡ i32.encode n) × Carries c.decode (i32.encode n) v × IsWritten c (suc n) variants

  -- The codec numbers its variants from 0; the unknown variant cannot be written, and no other number
  -- can be read.
  pub record IsNumbered (c : Codec E) (unknown : E) (variants : List E) : Type 0 where
    pub written : IsWritten c 0 variants
    pub unknown_refused : c.encode unknown ≡ err enum_unknown
    pub others_refused :
        (code : ℕ) (bytes rest : Bytes)
        → IsU32 code
        → length variants ≤ code
        → i32.encode code ≡ ok bytes
        → c.decode (bytes ++ rest) ≡ err (enum_invalid_ordinal (i32_as_u64 code))

-- A reader after one that succeeds.
bind_ok :
    {A B : Type 0} (m : Reader A) (f : A → Reader B) (bytes rest : Bytes) (a : A)
    → m bytes ≡ ok (a, rest)
    → (m >>= f) bytes ≡ f a rest
unfolding ◌>>=◌
bind_ok m f bytes rest a e = rw (e, ◌>>=◌) refl

module _ {E : Type 0} (ordinal : E → Option ℕ) (of : ℕ → Option E) where
  abbrev Numbers : ℕ → List E → Type 0
  Numbers n [] = Unit {0}
  Numbers n (v ∷ variants) = (ordinal v ≡ Option.some n) × Numbers (suc n) variants

  record IsTable (unknown : E) (variants : List E) : Type 0 where
    numbers : Numbers 0 variants
    no_number : ordinal unknown ≡ Option.none
    no_variant : (code : ℕ) → length variants ≤ code → of code ≡ Option.none

  module _ ⦃order : ByteOrder⦄ (laws : IsEnum ordinal of) where
    Numbers-IsWritten :
        (n : ℕ) (variants : List E)
        → Numbers n variants
        → IsWritten (codec_enum ordinal of) n variants
    unfolding codec_enum encode_enum
    Numbers-IsWritten n [] h = tt
    Numbers-IsWritten n (v ∷ variants) (e, h) =
        let (back, small) = laws.back v n e in
        (
          rw (e, encode_enum) refl,
          Carries-end _ n (i32-RoundTrips n small) (variant-Carries ordinal of laws v n back),
          Numbers-IsWritten (suc n) variants h,
        )

    variant_none :
        (code : ℕ) (rest : Bytes)
        → of code ≡ Option.none
        → variant_of ordinal of code rest ≡ err (enum_invalid_ordinal (i32_as_u64 code))
    unfolding variant_of fail
    variant_none code rest e = rw (e, variant_of) refl

    other_number :
        (code : ℕ) (bytes rest : Bytes)
        → of code ≡ Option.none
        → IsU32 code
        → i32.encode code ≡ ok bytes
        → (codec_enum ordinal of).decode (bytes ++ rest)
          ≡ err (enum_invalid_ordinal (i32_as_u64 code))
    unfolding codec_enum
    other_number code bytes rest e small w =
        let c = i32-RoundTrips code small in
        let same : c.written ≡ bytes = cc (c.writes, w) in
        let read : i32.decode (bytes ++ rest) ≡ ok (code, rest) = rw (← same) (c.reads rest) in
        bind_ok i32.decode (variant_of ordinal of) (bytes ++ rest) rest code read
        ∙ variant_none code rest e

    codec_enum-IsNumbered :
        (unknown : E) (variants : List E)
        → IsTable unknown variants
        → IsNumbered (codec_enum ordinal of) unknown variants
    unfolding codec_enum encode_enum
    codec_enum-IsNumbered unknown variants t = record {
      written = Numbers-IsWritten 0 variants t.numbers;
      unknown_refused = rw (t.no_number, encode_enum) refl;
      others_refused =
          λ code bytes rest small h w. other_number code bytes rest (t.no_variant code h) small w;
    }

abbrev pub captcha_location_variants : List CaptchaLocation
captcha_location_variants =
    CaptchaLocation.login_form ∷ CaptchaLocation.register_form ∷ CaptchaLocation.client_startup
    ∷ CaptchaLocation.restore_password_form ∷ CaptchaLocation.email_change_hash
    ∷ CaptchaLocation.account_settings_form ∷ []

captcha_location-IsNumbered :
    ⦃order : ByteOrder⦄
    → IsNumbered captcha_location CaptchaLocation.unknown captcha_location_variants
unfolding captcha_location captcha_location_ordinal captcha_location_of
captcha_location-IsNumbered =
    codec_enum-IsNumbered captcha_location_ordinal captcha_location_of captcha_location-IsEnum
      CaptchaLocation.unknown captcha_location_variants
      (record { numbers = ground arith; no_number = refl; no_variant = λ code h. ground arith })

abbrev pub layout_state_variants : List LayoutState
layout_state_variants =
    LayoutState.battle_select ∷ LayoutState.garage ∷ LayoutState.payment ∷ LayoutState.battle
    ∷ LayoutState.reload_space ∷ []

layout_state-IsNumbered :
    ⦃order : ByteOrder⦄ → IsNumbered layout_state LayoutState.unknown layout_state_variants
unfolding layout_state layout_state_ordinal layout_state_of
layout_state-IsNumbered =
    codec_enum-IsNumbered layout_state_ordinal layout_state_of layout_state-IsEnum
      LayoutState.unknown layout_state_variants
      (record { numbers = ground arith; no_number = refl; no_variant = λ code h. ground arith })

abbrev pub validation_status_variants : List ValidationStatus
validation_status_variants =
    ValidationStatus.too_short ∷ ValidationStatus.too_long ∷ ValidationStatus.not_unique
    ∷ ValidationStatus.not_match_pattern ∷ ValidationStatus.forbidden ∷ ValidationStatus.correct
    ∷ []

validation_status-IsNumbered :
    ⦃order : ByteOrder⦄
    → IsNumbered validation_status ValidationStatus.unknown validation_status_variants
unfolding validation_status validation_status_ordinal validation_status_of
validation_status-IsNumbered =
    codec_enum-IsNumbered validation_status_ordinal validation_status_of validation_status-IsEnum
      ValidationStatus.unknown validation_status_variants
      (record { numbers = ground arith; no_number = refl; no_variant = λ code h. ground arith })

abbrev pub map_theme_variants : List MapTheme
map_theme_variants =
    MapTheme.summer ∷ MapTheme.winter ∷ MapTheme.space ∷ MapTheme.summer_day ∷ MapTheme.summer_night
    ∷ MapTheme.winter_day ∷ []

map_theme-IsNumbered :
    ⦃order : ByteOrder⦄ → IsNumbered map_theme MapTheme.unknown map_theme_variants
unfolding map_theme map_theme_ordinal map_theme_of
map_theme-IsNumbered =
    codec_enum-IsNumbered map_theme_ordinal map_theme_of map_theme-IsEnum MapTheme.unknown
      map_theme_variants
      (record { numbers = ground arith; no_number = refl; no_variant = λ code h. ground arith })

abbrev pub item_view_category_variants : List ItemViewCategory
item_view_category_variants =
    ItemViewCategory.weapon ∷ ItemViewCategory.armor ∷ ItemViewCategory.paint
    ∷ ItemViewCategory.inventory ∷ ItemViewCategory.kit ∷ ItemViewCategory.special
    ∷ ItemViewCategory.given_presents ∷ []

item_view_category-IsNumbered :
    ⦃order : ByteOrder⦄
    → IsNumbered item_view_category ItemViewCategory.unknown item_view_category_variants
unfolding item_view_category item_view_category_ordinal item_view_category_of
item_view_category-IsNumbered =
    codec_enum-IsNumbered item_view_category_ordinal item_view_category_of item_view_category-IsEnum
      ItemViewCategory.unknown item_view_category_variants
      (record { numbers = ground arith; no_number = refl; no_variant = λ code h. ground arith })

abbrev pub item_category_variants : List ItemCategory
item_category_variants =
    ItemCategory.weapon ∷ ItemCategory.armor ∷ ItemCategory.color ∷ ItemCategory.inventory
    ∷ ItemCategory.plugin ∷ ItemCategory.kit ∷ ItemCategory.emblem ∷ ItemCategory.present
    ∷ ItemCategory.given_present ∷ []

item_category-IsNumbered :
    ⦃order : ByteOrder⦄ → IsNumbered item_category ItemCategory.unknown item_category_variants
unfolding item_category item_category_ordinal item_category_of
item_category-IsNumbered =
    codec_enum-IsNumbered item_category_ordinal item_category_of item_category-IsEnum
      ItemCategory.unknown item_category_variants
      (record { numbers = ground arith; no_number = refl; no_variant = λ code h. ground arith })

abbrev pub isis_state_variants : List IsisState
isis_state_variants = IsisState.off ∷ IsisState.idle ∷ IsisState.healing ∷ IsisState.damaging ∷ []

isis_state-IsNumbered :
    ⦃order : ByteOrder⦄ → IsNumbered isis_state IsisState.unknown isis_state_variants
unfolding isis_state isis_state_ordinal isis_state_of
isis_state-IsNumbered =
    codec_enum-IsNumbered isis_state_ordinal isis_state_of isis_state-IsEnum IsisState.unknown
      isis_state_variants
      (record { numbers = ground arith; no_number = refl; no_variant = λ code h. ground arith })

abbrev pub equipment_constraints_mode_variants : List EquipmentConstraintsMode
equipment_constraints_mode_variants =
    EquipmentConstraintsMode.none ∷ EquipmentConstraintsMode.hornet_railgun
    ∷ EquipmentConstraintsMode.wasp_railgun ∷ EquipmentConstraintsMode.hornet_wasp_railgun ∷ []

equipment_constraints_mode-IsNumbered :
    ⦃order : ByteOrder⦄
    → IsNumbered equipment_constraints_mode EquipmentConstraintsMode.unknown
        equipment_constraints_mode_variants
unfolding equipment_constraints_mode equipment_constraints_mode_ordinal
    equipment_constraints_mode_of
equipment_constraints_mode-IsNumbered =
    codec_enum-IsNumbered equipment_constraints_mode_ordinal equipment_constraints_mode_of
      equipment_constraints_mode-IsEnum EquipmentConstraintsMode.unknown
      equipment_constraints_mode_variants
      (record { numbers = ground arith; no_number = refl; no_variant = λ code h. ground arith })

abbrev pub damage_indicator_type_variants : List DamageIndicatorType
damage_indicator_type_variants =
    DamageIndicatorType.normal ∷ DamageIndicatorType.critical ∷ DamageIndicatorType.fatal
    ∷ DamageIndicatorType.heal ∷ []

damage_indicator_type-IsNumbered :
    ⦃order : ByteOrder⦄
    → IsNumbered damage_indicator_type DamageIndicatorType.unknown damage_indicator_type_variants
unfolding damage_indicator_type damage_indicator_type_ordinal damage_indicator_type_of
damage_indicator_type-IsNumbered =
    codec_enum-IsNumbered damage_indicator_type_ordinal damage_indicator_type_of
      damage_indicator_type-IsEnum DamageIndicatorType.unknown damage_indicator_type_variants
      (record { numbers = ground arith; no_number = refl; no_variant = λ code h. ground arith })

abbrev pub control_point_state_variants : List ControlPointState
control_point_state_variants =
    ControlPointState.red ∷ ControlPointState.blue ∷ ControlPointState.neutral ∷ []

control_point_state-IsNumbered :
    ⦃order : ByteOrder⦄
    → IsNumbered control_point_state ControlPointState.unknown control_point_state_variants
unfolding control_point_state control_point_state_ordinal control_point_state_of
control_point_state-IsNumbered =
    codec_enum-IsNumbered control_point_state_ordinal control_point_state_of
      control_point_state-IsEnum ControlPointState.unknown control_point_state_variants
      (record { numbers = ground arith; no_number = refl; no_variant = λ code h. ground arith })

abbrev pub chat_moderator_level_variants : List ChatModeratorLevel
chat_moderator_level_variants =
    ChatModeratorLevel.none ∷ ChatModeratorLevel.community_manager
    ∷ ChatModeratorLevel.administrator ∷ ChatModeratorLevel.moderator ∷ ChatModeratorLevel.candidate
    ∷ []

chat_moderator_level-IsNumbered :
    ⦃order : ByteOrder⦄
    → IsNumbered chat_moderator_level ChatModeratorLevel.unknown chat_moderator_level_variants
unfolding chat_moderator_level chat_moderator_level_ordinal chat_moderator_level_of
chat_moderator_level-IsNumbered =
    codec_enum-IsNumbered chat_moderator_level_ordinal chat_moderator_level_of
      chat_moderator_level-IsEnum ChatModeratorLevel.unknown chat_moderator_level_variants
      (record { numbers = ground arith; no_number = refl; no_variant = λ code h. ground arith })

abbrev pub battle_team_variants : List BattleTeam
battle_team_variants = BattleTeam.red ∷ BattleTeam.blue ∷ BattleTeam.none ∷ []

battle_team-IsNumbered :
    ⦃order : ByteOrder⦄ → IsNumbered battle_team BattleTeam.unknown battle_team_variants
unfolding battle_team battle_team_ordinal battle_team_of
battle_team-IsNumbered =
    codec_enum-IsNumbered battle_team_ordinal battle_team_of battle_team-IsEnum BattleTeam.unknown
      battle_team_variants
      (record { numbers = ground arith; no_number = refl; no_variant = λ code h. ground arith })

abbrev pub battle_suspicion_level_variants : List BattleSuspicionLevel
battle_suspicion_level_variants =
    BattleSuspicionLevel.none ∷ BattleSuspicionLevel.low ∷ BattleSuspicionLevel.high ∷ []

battle_suspicion_level-IsNumbered :
    ⦃order : ByteOrder⦄
    → IsNumbered battle_suspicion_level BattleSuspicionLevel.unknown battle_suspicion_level_variants
unfolding battle_suspicion_level battle_suspicion_level_ordinal battle_suspicion_level_of
battle_suspicion_level-IsNumbered =
    codec_enum-IsNumbered battle_suspicion_level_ordinal battle_suspicion_level_of
      battle_suspicion_level-IsEnum BattleSuspicionLevel.unknown battle_suspicion_level_variants
      (record { numbers = ground arith; no_number = refl; no_variant = λ code h. ground arith })

abbrev pub battle_mode_variants : List BattleMode
battle_mode_variants =
    BattleMode.dm ∷ BattleMode.tdm ∷ BattleMode.ctf ∷ BattleMode.cp ∷ BattleMode.as_mode ∷ []

battle_mode-IsNumbered :
    ⦃order : ByteOrder⦄ → IsNumbered battle_mode BattleMode.unknown battle_mode_variants
unfolding battle_mode battle_mode_ordinal battle_mode_of
battle_mode-IsNumbered =
    codec_enum-IsNumbered battle_mode_ordinal battle_mode_of battle_mode-IsEnum BattleMode.unknown
      battle_mode_variants
      (record { numbers = ground arith; no_number = refl; no_variant = λ code h. ground arith })

abbrev pub achievement_variants : List Achievement
achievement_variants =
    Achievement.first_rank_up ∷ Achievement.first_purchase ∷ Achievement.set_email
    ∷ Achievement.fight_first_battle ∷ Achievement.first_donate ∷ []

achievement-IsNumbered :
    ⦃order : ByteOrder⦄ → IsNumbered achievement Achievement.unknown achievement_variants
unfolding achievement achievement_ordinal achievement_of
achievement-IsNumbered =
    codec_enum-IsNumbered achievement_ordinal achievement_of achievement-IsEnum Achievement.unknown
      achievement_variants
      (record { numbers = ground arith; no_number = refl; no_variant = λ code h. ground arith })

-- Each enum's variants are written as the numbers from 0 on, in the order of the source, and read back
-- from them; the unknown variant is an error when written, and every other number when read.
pub enums-IsNumbered :
    ⦃order : ByteOrder⦄
    → IsNumbered captcha_location CaptchaLocation.unknown captcha_location_variants
      × IsNumbered layout_state LayoutState.unknown layout_state_variants
      × IsNumbered validation_status ValidationStatus.unknown validation_status_variants
      × IsNumbered map_theme MapTheme.unknown map_theme_variants
      × IsNumbered item_view_category ItemViewCategory.unknown item_view_category_variants
      × IsNumbered item_category ItemCategory.unknown item_category_variants
      × IsNumbered isis_state IsisState.unknown isis_state_variants
      × IsNumbered equipment_constraints_mode EquipmentConstraintsMode.unknown
          equipment_constraints_mode_variants
      × IsNumbered damage_indicator_type DamageIndicatorType.unknown damage_indicator_type_variants
      × IsNumbered control_point_state ControlPointState.unknown control_point_state_variants
      × IsNumbered chat_moderator_level ChatModeratorLevel.unknown chat_moderator_level_variants
      × IsNumbered battle_team BattleTeam.unknown battle_team_variants
      × IsNumbered battle_suspicion_level BattleSuspicionLevel.unknown
          battle_suspicion_level_variants
      × IsNumbered battle_mode BattleMode.unknown battle_mode_variants
      × IsNumbered achievement Achievement.unknown achievement_variants
enums-IsNumbered = (
  captcha_location-IsNumbered, layout_state-IsNumbered, validation_status-IsNumbered,
  map_theme-IsNumbered, item_view_category-IsNumbered, item_category-IsNumbered,
  isis_state-IsNumbered, equipment_constraints_mode-IsNumbered, damage_indicator_type-IsNumbered,
  control_point_state-IsNumbered, chat_moderator_level-IsNumbered, battle_team-IsNumbered,
  battle_suspicion_level-IsNumbered, battle_mode-IsNumbered, achievement-IsNumbered,
)
