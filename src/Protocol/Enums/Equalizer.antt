-- ===== src/Protocol/Enums/Equalizer.antt =====
-- The equalizer types of src/protocol/enums.rs: the variants, their bytes,
-- and the instances by which `from_u8`, `to_u8` and `==` apply.
use sony_buds_tray_control.Prelude.{ℕ, ◌≡◌, refl, List, [], ◌∷◌}
use sony_buds_tray_control.Protocol.Enums.Macro.{U8Enum, find_variant}

pub data EqEbbInquiredType : Type 0 where
  preset_eq ebb preset_eq_non_customizable preset_eq_and_ult_mode : EqEbbInquiredType
  preset_eq_and_error_code sound_effect custom_eq turn_key_eq unknown : EqEbbInquiredType

unfoldable pub eq_ebb_inquired_type_to_u8 : EqEbbInquiredType → ℕ
eq_ebb_inquired_type_to_u8 EqEbbInquiredType.preset_eq = 0x00
eq_ebb_inquired_type_to_u8 EqEbbInquiredType.ebb = 0x01
eq_ebb_inquired_type_to_u8 EqEbbInquiredType.preset_eq_non_customizable = 0x02
eq_ebb_inquired_type_to_u8 EqEbbInquiredType.preset_eq_and_ult_mode = 0x03
eq_ebb_inquired_type_to_u8 EqEbbInquiredType.preset_eq_and_error_code = 0x04
eq_ebb_inquired_type_to_u8 EqEbbInquiredType.sound_effect = 0x30
eq_ebb_inquired_type_to_u8 EqEbbInquiredType.custom_eq = 0x31
eq_ebb_inquired_type_to_u8 EqEbbInquiredType.turn_key_eq = 0x32
eq_ebb_inquired_type_to_u8 EqEbbInquiredType.unknown = 0xFF

abbrev eq_ebb_inquired_type_variants : List EqEbbInquiredType
eq_ebb_inquired_type_variants =
    EqEbbInquiredType.preset_eq ∷ EqEbbInquiredType.ebb
    ∷ EqEbbInquiredType.preset_eq_non_customizable ∷ EqEbbInquiredType.preset_eq_and_ult_mode
    ∷ EqEbbInquiredType.preset_eq_and_error_code ∷ EqEbbInquiredType.sound_effect
    ∷ EqEbbInquiredType.custom_eq ∷ EqEbbInquiredType.turn_key_eq ∷ EqEbbInquiredType.unknown ∷ []

pub find_variant-eq_ebb_inquired_type_to_u8 :
    (x : EqEbbInquiredType)
    → find_variant eq_ebb_inquired_type_to_u8 EqEbbInquiredType.unknown
        eq_ebb_inquired_type_variants
        (eq_ebb_inquired_type_to_u8 x)
      ≡ x
unfolding find_variant eq_ebb_inquired_type_to_u8
find_variant-eq_ebb_inquired_type_to_u8 EqEbbInquiredType.preset_eq = refl
find_variant-eq_ebb_inquired_type_to_u8 _ = refl

instance abbrev pub eq_ebb_inquired_type_enum : U8Enum EqEbbInquiredType
eq_ebb_inquired_type_enum = record {
  to_u8 = eq_ebb_inquired_type_to_u8;
  variants = eq_ebb_inquired_type_variants;
  unknown = EqEbbInquiredType.unknown;
  from_u8-to_u8 = find_variant-eq_ebb_inquired_type_to_u8;
}

pub data EqPresetId : Type 0 where
  off rock pop jazz dance edm r_and_b_hip_hop acoustic bright excited mellow relaxed : EqPresetId
  vocal treble bass speech gaming_eq fps1 fps2 fps3 heavy clear hard soft custom : EqPresetId
  user_setting1 user_setting2 user_setting3 user_setting4 user_setting5 unspecified : EqPresetId
  unknown : EqPresetId

unfoldable pub eq_preset_id_to_u8 : EqPresetId → ℕ
eq_preset_id_to_u8 EqPresetId.off = 0x00
eq_preset_id_to_u8 EqPresetId.rock = 0x01
eq_preset_id_to_u8 EqPresetId.pop = 0x02
eq_preset_id_to_u8 EqPresetId.jazz = 0x03
eq_preset_id_to_u8 EqPresetId.dance = 0x04
eq_preset_id_to_u8 EqPresetId.edm = 0x05
eq_preset_id_to_u8 EqPresetId.r_and_b_hip_hop = 0x06
eq_preset_id_to_u8 EqPresetId.acoustic = 0x07
eq_preset_id_to_u8 EqPresetId.bright = 0x10
eq_preset_id_to_u8 EqPresetId.excited = 0x11
eq_preset_id_to_u8 EqPresetId.mellow = 0x12
eq_preset_id_to_u8 EqPresetId.relaxed = 0x13
eq_preset_id_to_u8 EqPresetId.vocal = 0x14
eq_preset_id_to_u8 EqPresetId.treble = 0x15
eq_preset_id_to_u8 EqPresetId.bass = 0x16
eq_preset_id_to_u8 EqPresetId.speech = 0x17
eq_preset_id_to_u8 EqPresetId.gaming_eq = 0x20
eq_preset_id_to_u8 EqPresetId.fps1 = 0x21
eq_preset_id_to_u8 EqPresetId.fps2 = 0x22
eq_preset_id_to_u8 EqPresetId.fps3 = 0x23
eq_preset_id_to_u8 EqPresetId.heavy = 0x30
eq_preset_id_to_u8 EqPresetId.clear = 0x31
eq_preset_id_to_u8 EqPresetId.hard = 0x32
eq_preset_id_to_u8 EqPresetId.soft = 0x33
eq_preset_id_to_u8 EqPresetId.custom = 0xA0
eq_preset_id_to_u8 EqPresetId.user_setting1 = 0xA1
eq_preset_id_to_u8 EqPresetId.user_setting2 = 0xA2
eq_preset_id_to_u8 EqPresetId.user_setting3 = 0xA3
eq_preset_id_to_u8 EqPresetId.user_setting4 = 0xA4
eq_preset_id_to_u8 EqPresetId.user_setting5 = 0xA5
eq_preset_id_to_u8 EqPresetId.unspecified = 0xFF
eq_preset_id_to_u8 EqPresetId.unknown = 0xFE

abbrev eq_preset_id_variants : List EqPresetId
eq_preset_id_variants =
    EqPresetId.off ∷ EqPresetId.rock ∷ EqPresetId.pop ∷ EqPresetId.jazz ∷ EqPresetId.dance
    ∷ EqPresetId.edm ∷ EqPresetId.r_and_b_hip_hop ∷ EqPresetId.acoustic ∷ EqPresetId.bright
    ∷ EqPresetId.excited ∷ EqPresetId.mellow ∷ EqPresetId.relaxed ∷ EqPresetId.vocal
    ∷ EqPresetId.treble ∷ EqPresetId.bass ∷ EqPresetId.speech ∷ EqPresetId.gaming_eq
    ∷ EqPresetId.fps1 ∷ EqPresetId.fps2 ∷ EqPresetId.fps3 ∷ EqPresetId.heavy ∷ EqPresetId.clear
    ∷ EqPresetId.hard ∷ EqPresetId.soft ∷ EqPresetId.custom ∷ EqPresetId.user_setting1
    ∷ EqPresetId.user_setting2 ∷ EqPresetId.user_setting3 ∷ EqPresetId.user_setting4
    ∷ EqPresetId.user_setting5 ∷ EqPresetId.unspecified ∷ EqPresetId.unknown ∷ []

pub find_variant-eq_preset_id_to_u8 :
    (x : EqPresetId)
    → find_variant eq_preset_id_to_u8 EqPresetId.unknown eq_preset_id_variants
        (eq_preset_id_to_u8 x)
      ≡ x
unfolding find_variant eq_preset_id_to_u8
find_variant-eq_preset_id_to_u8 EqPresetId.off = refl
find_variant-eq_preset_id_to_u8 _ = refl

instance abbrev pub eq_preset_id_enum : U8Enum EqPresetId
eq_preset_id_enum = record {
  to_u8 = eq_preset_id_to_u8;
  variants = eq_preset_id_variants;
  unknown = EqPresetId.unknown;
  from_u8-to_u8 = find_variant-eq_preset_id_to_u8;
}
