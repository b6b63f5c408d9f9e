-- ===== src/Protocol/Enums/Settings.antt =====
-- The general setting types of src/protocol/enums.rs: the variants, their bytes,
-- and the instances by which `from_u8`, `to_u8` and `==` apply.
use sony_buds_tray_control.Prelude.{ℕ, ◌≡◌, refl, List, [], ◌∷◌}
use sony_buds_tray_control.Protocol.Enums.Macro.{U8Enum, find_variant}

pub data GsInquiredType : Type 0 where
  general_setting1 general_setting2 general_setting3 general_setting4 unknown : GsInquiredType

unfoldable pub gs_inquired_type_to_u8 : GsInquiredType → ℕ
gs_inquired_type_to_u8 GsInquiredType.general_setting1 = 0xD1
gs_inquired_type_to_u8 GsInquiredType.general_setting2 = 0xD2
gs_inquired_type_to_u8 GsInquiredType.general_setting3 = 0xD3
gs_inquired_type_to_u8 GsInquiredType.general_setting4 = 0xD4
gs_inquired_type_to_u8 GsInquiredType.unknown = 0xFF

abbrev gs_inquired_type_variants : List GsInquiredType
gs_inquired_type_variants =
    GsInquiredType.general_setting1 ∷ GsInquiredType.general_setting2
    ∷ GsInquiredType.general_setting3 ∷ GsInquiredType.general_setting4 ∷ GsInquiredType.unknown
    ∷ []

pub find_variant-gs_inquired_type_to_u8 :
    (x : GsInquiredType)
    → find_variant gs_inquired_type_to_u8 GsInquiredType.unknown gs_inquired_type_variants
        (gs_inquired_type_to_u8 x)
      ≡ x
unfolding find_variant gs_inquired_type_to_u8
find_variant-gs_inquired_type_to_u8 GsInquiredType.general_setting1 = refl
find_variant-gs_inquired_type_to_u8 _ = refl

instance abbrev pub gs_inquired_type_enum : U8Enum GsInquiredType
gs_inquired_type_enum = record {
  to_u8 = gs_inquired_type_to_u8;
  variants = gs_inquired_type_variants;
  unknown = GsInquiredType.unknown;
  from_u8-to_u8 = find_variant-gs_inquired_type_to_u8;
}

pub data GsSettingType : Type 0 where
  boolean_type list_type unknown : GsSettingType

unfoldable pub gs_setting_type_to_u8 : GsSettingType → ℕ
gs_setting_type_to_u8 GsSettingType.boolean_type = 0x00
gs_setting_type_to_u8 GsSettingType.list_type = 0x01
gs_setting_type_to_u8 GsSettingType.unknown = 0xFF

abbrev gs_setting_type_variants : List GsSettingType
gs_setting_type_variants =
    GsSettingType.boolean_type ∷ GsSettingType.list_type ∷ GsSettingType.unknown ∷ []

pub find_variant-gs_setting_type_to_u8 :
    (x : GsSettingType)
    → find_variant gs_setting_type_to_u8 GsSettingType.unknown gs_setting_type_variants
        (gs_setting_type_to_u8 x)
      ≡ x
unfolding find_variant gs_setting_type_to_u8
find_variant-gs_setting_type_to_u8 GsSettingType.boolean_type = refl
find_variant-gs_setting_type_to_u8 _ = refl

instance abbrev pub gs_setting_type_enum : U8Enum GsSettingType
gs_setting_type_enum = record {
  to_u8 = gs_setting_type_to_u8;
  variants = gs_setting_type_variants;
  unknown = GsSettingType.unknown;
  from_u8-to_u8 = find_variant-gs_setting_type_to_u8;
}

pub data GsSettingValue : Type 0 where
  on off unknown : GsSettingValue

unfoldable pub gs_setting_value_to_u8 : GsSettingValue → ℕ
gs_setting_value_to_u8 GsSettingValue.on = 0x00
gs_setting_value_to_u8 GsSettingValue.off = 0x01
gs_setting_value_to_u8 GsSettingValue.unknown = 0xFF

abbrev gs_setting_value_variants : List GsSettingValue
gs_setting_value_variants = GsSettingValue.on ∷ GsSettingValue.off ∷ GsSettingValue.unknown ∷ []

pub find_variant-gs_setting_value_to_u8 :
    (x : GsSettingValue)
    → find_variant gs_setting_value_to_u8 GsSettingValue.unknown gs_setting_value_variants
        (gs_setting_value_to_u8 x)
      ≡ x
unfolding find_variant gs_setting_value_to_u8
find_variant-gs_setting_value_to_u8 GsSettingValue.on = refl
find_variant-gs_setting_value_to_u8 _ = refl

instance abbrev pub gs_setting_value_enum : U8Enum GsSettingValue
gs_setting_value_enum = record {
  to_u8 = gs_setting_value_to_u8;
  variants = gs_setting_value_variants;
  unknown = GsSettingValue.unknown;
  from_u8-to_u8 = find_variant-gs_setting_value_to_u8;
}

pub data DisplayLanguage : Type 0 where
  undefined_language english french german spanish italian portuguese dutch swedish :
      DisplayLanguage
  finnish russian japanese simplified_chinese brazilian_portuguese traditional_chinese :
      DisplayLanguage
  korean turkish unknown : DisplayLanguage

unfoldable pub display_language_to_u8 : DisplayLanguage → ℕ
display_language_to_u8 DisplayLanguage.undefined_language = 0x00
display_language_to_u8 DisplayLanguage.english = 0x01
display_language_to_u8 DisplayLanguage.french = 0x02
display_language_to_u8 DisplayLanguage.german = 0x03
display_language_to_u8 DisplayLanguage.spanish = 0x04
display_language_to_u8 DisplayLanguage.italian = 0x05
display_language_to_u8 DisplayLanguage.portuguese = 0x06
display_language_to_u8 DisplayLanguage.dutch = 0x07
display_language_to_u8 DisplayLanguage.swedish = 0x08
display_language_to_u8 DisplayLanguage.finnish = 0x09
display_language_to_u8 DisplayLanguage.russian = 0x0A
display_language_to_u8 DisplayLanguage.japanese = 0x0B
display_language_to_u8 DisplayLanguage.simplified_chinese = 0x0C
display_language_to_u8 DisplayLanguage.brazilian_portuguese = 0x0D
display_language_to_u8 DisplayLanguage.traditional_chinese = 0x0E
display_language_to_u8 DisplayLanguage.korean = 0x0F
display_language_to_u8 DisplayLanguage.turkish = 0x10
display_language_to_u8 DisplayLanguage.unknown = 0xFF

abbrev display_language_variants : List DisplayLanguage
display_language_variants =
    DisplayLanguage.undefined_language ∷ DisplayLanguage.english ∷ DisplayLanguage.french
    ∷ DisplayLanguage.german ∷ DisplayLanguage.spanish ∷ DisplayLanguage.italian
    ∷ DisplayLanguage.portuguese ∷ DisplayLanguage.dutch ∷ DisplayLanguage.swedish
    ∷ DisplayLanguage.finnish ∷ DisplayLanguage.russian ∷ DisplayLanguage.japanese
    ∷ DisplayLanguage.simplified_chinese ∷ DisplayLanguage.brazilian_portuguese
    ∷ DisplayLanguage.traditional_chinese ∷ DisplayLanguage.korean ∷ DisplayLanguage.turkish
    ∷ DisplayLanguage.unknown ∷ []

pub find_variant-display_language_to_u8 :
    (x : DisplayLanguage)
    → find_variant display_language_to_u8 DisplayLanguage.unknown display_language_variants
        (display_language_to_u8 x)
      ≡ x
unfolding find_variant display_language_to_u8
find_variant-display_language_to_u8 DisplayLanguage.undefined_language = refl
find_variant-display_language_to_u8 _ = refl

instance abbrev pub display_language_enum : U8Enum DisplayLanguage
display_language_enum = record {
  to_u8 = display_language_to_u8;
  variants = display_language_variants;
  unknown = DisplayLanguage.unknown;
  from_u8-to_u8 = find_variant-display_language_to_u8;
}

pub data GsStringFormat : Type 0 where
  raw_name enum_name unknown : GsStringFormat

unfoldable pub gs_string_format_to_u8 : GsStringFormat → ℕ
gs_string_format_to_u8 GsStringFormat.raw_name = 0x00
gs_string_format_to_u8 GsStringFormat.enum_name = 0x01
gs_string_format_to_u8 GsStringFormat.unknown = 0xFF

abbrev gs_string_format_variants : List GsStringFormat
gs_string_format_variants =
    GsStringFormat.raw_name ∷ GsStringFormat.enum_name ∷ GsStringFormat.unknown ∷ []

pub find_variant-gs_string_format_to_u8 :
    (x : GsStringFormat)
    → find_variant gs_string_format_to_u8 GsStringFormat.unknown gs_string_format_variants
        (gs_string_format_to_u8 x)
      ≡ x
unfolding find_variant gs_string_format_to_u8
find_variant-gs_string_format_to_u8 GsStringFormat.raw_name = refl
find_variant-gs_string_format_to_u8 _ = refl

instance abbrev pub gs_string_format_enum : U8Enum GsStringFormat
gs_string_format_enum = record {
  to_u8 = gs_string_format_to_u8;
  variants = gs_string_format_variants;
  unknown = GsStringFormat.unknown;
  from_u8-to_u8 = find_variant-gs_string_format_to_u8;
}
