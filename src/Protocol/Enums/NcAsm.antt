-- ===== src/Protocol/Enums/NcAsm.antt =====
-- The noise cancelling and ambient sound types of src/protocol/enums.rs: the variants, their bytes,
-- and the instances by which `from_u8`, `to_u8` and `==` apply.
use sony_buds_tray_control.Prelude.{ℕ, ◌≡◌, refl, List, [], ◌∷◌}
use sony_buds_tray_control.Protocol.Enums.Macro.{U8Enum, find_variant}

pub data NcAsmInquiredType : Type 0 where
  nc_on_off nc_on_off_and_asm_on_off nc_mode_switch_and_asm_on_off : NcAsmInquiredType
  nc_on_off_and_asm_seamless nc_mode_switch_and_asm_seamless : NcAsmInquiredType
  mode_nc_asm_auto_nc_mode_switch_and_asm_seamless : NcAsmInquiredType
  mode_nc_asm_dual_single_nc_mode_switch_and_asm_seamless : NcAsmInquiredType
  mode_nc_asm_dual_nc_mode_switch_and_asm_seamless : NcAsmInquiredType
  mode_nc_ncss_asm_dual_nc_mode_switch_and_asm_seamless : NcAsmInquiredType
  mode_nc_asm_dual_nc_mode_switch_and_asm_seamless_na asm_on_off asm_seamless : NcAsmInquiredType
  nc_amb_toggle nc_test_mode unknown : NcAsmInquiredType

unfoldable pub nc_asm_inquired_type_to_u8 : NcAsmInquiredType → ℕ
nc_asm_inquired_type_to_u8 NcAsmInquiredType.nc_on_off = 0x1
nc_asm_inquired_type_to_u8 NcAsmInquiredType.nc_on_off_and_asm_on_off = 0x11
nc_asm_inquired_type_to_u8 NcAsmInquiredType.nc_mode_switch_and_asm_on_off = 0x12
nc_asm_inquired_type_to_u8 NcAsmInquiredType.nc_on_off_and_asm_seamless = 0x13
nc_asm_inquired_type_to_u8 NcAsmInquiredType.nc_mode_switch_and_asm_seamless = 0x14
nc_asm_inquired_type_to_u8 NcAsmInquiredType.mode_nc_asm_auto_nc_mode_switch_and_asm_seamless = 0x15
nc_asm_inquired_type_to_u8
      NcAsmInquiredType.mode_nc_asm_dual_single_nc_mode_switch_and_asm_seamless =
    0x16
nc_asm_inquired_type_to_u8 NcAsmInquiredType.mode_nc_asm_dual_nc_mode_switch_and_asm_seamless = 0x17
nc_asm_inquired_type_to_u8 NcAsmInquiredType.mode_nc_ncss_asm_dual_nc_mode_switch_and_asm_seamless =
    0x18
nc_asm_inquired_type_to_u8 NcAsmInquiredType.mode_nc_asm_dual_nc_mode_switch_and_asm_seamless_na =
    0x19
nc_asm_inquired_type_to_u8 NcAsmInquiredType.asm_on_off = 0x21
nc_asm_inquired_type_to_u8 NcAsmInquiredType.asm_seamless = 0x22
nc_asm_inquired_type_to_u8 NcAsmInquiredType.nc_amb_toggle = 0x30
nc_asm_inquired_type_to_u8 NcAsmInquiredType.nc_test_mode = 0x40
nc_asm_inquired_type_to_u8 NcAsmInquiredType.unknown = 0xFF

abbrev nc_asm_inquired_type_variants : List NcAsmInquiredType
nc_asm_inquired_type_variants =
    NcAsmInquiredType.nc_on_off ∷ NcAsmInquiredType.nc_on_off_and_asm_on_off
    ∷ NcAsmInquiredType.nc_mode_switch_and_asm_on_off ∷ NcAsmInquiredType.nc_on_off_and_asm_seamless
    ∷ NcAsmInquiredType.nc_mode_switch_and_asm_seamless
    ∷ NcAsmInquiredType.mode_nc_asm_auto_nc_mode_switch_and_asm_seamless
    ∷ NcAsmInquiredType.mode_nc_asm_dual_single_nc_mode_switch_and_asm_seamless
    ∷ NcAsmInquiredType.mode_nc_asm_dual_nc_mode_switch_and_asm_seamless
    ∷ NcAsmInquiredType.mode_nc_ncss_asm_dual_nc_mode_switch_and_asm_seamless
    ∷ NcAsmInquiredType.mode_nc_asm_dual_nc_mode_switch_and_asm_seamless_na
    ∷ NcAsmInquiredType.asm_on_off ∷ NcAsmInquiredType.asm_seamless
    ∷ NcAsmInquiredType.nc_amb_toggle ∷ NcAsmInquiredType.nc_test_mode ∷ NcAsmInquiredType.unknown
    ∷ []

pub find_variant-nc_asm_inquired_type_to_u8 :
    (x : NcAsmInquiredType)
    → find_variant nc_asm_inquired_type_to_u8 NcAsmInquiredType.unknown
        nc_asm_inquired_type_variants
        (nc_asm_inquired_type_to_u8 x)
      ≡ x
unfolding find_variant nc_asm_inquired_type_to_u8
find_variant-nc_asm_inquired_type_to_u8 NcAsmInquiredType.nc_on_off = refl
find_variant-nc_asm_inquired_type_to_u8 _ = refl

instance abbrev pub nc_asm_inquired_type_enum : U8Enum NcAsmInquiredType
nc_asm_inquired_type_enum = record {
  to_u8 = nc_asm_inquired_type_to_u8;
  variants = nc_asm_inquired_type_variants;
  unknown = NcAsmInquiredType.unknown;
  from_u8-to_u8 = find_variant-nc_asm_inquired_type_to_u8;
}

pub data ValueChangeStatus : Type 0 where
  under_changing changed unknown : ValueChangeStatus

unfoldable pub value_change_status_to_u8 : ValueChangeStatus → ℕ
value_change_status_to_u8 ValueChangeStatus.under_changing = 0
value_change_status_to_u8 ValueChangeStatus.changed = 1
value_change_status_to_u8 ValueChangeStatus.unknown = 0xFF

abbrev value_change_status_variants : List ValueChangeStatus
value_change_status_variants =
    ValueChangeStatus.under_changing ∷ ValueChangeStatus.changed ∷ ValueChangeStatus.unknown ∷ []

pub find_variant-value_change_status_to_u8 :
    (x : ValueChangeStatus)
    → find_variant value_change_status_to_u8 ValueChangeStatus.unknown value_change_status_variants
        (value_change_status_to_u8 x)
      ≡ x
unfolding find_variant value_change_status_to_u8
find_variant-value_change_status_to_u8 ValueChangeStatus.under_changing = refl
find_variant-value_change_status_to_u8 _ = refl

instance abbrev pub value_change_status_enum : U8Enum ValueChangeStatus
value_change_status_enum = record {
  to_u8 = value_change_status_to_u8;
  variants = value_change_status_variants;
  unknown = ValueChangeStatus.unknown;
  from_u8-to_u8 = find_variant-value_change_status_to_u8;
}

pub data NcAsmOnOffValue : Type 0 where
  off on unknown : NcAsmOnOffValue

unfoldable pub nc_asm_on_off_value_to_u8 : NcAsmOnOffValue → ℕ
nc_asm_on_off_value_to_u8 NcAsmOnOffValue.off = 0
nc_asm_on_off_value_to_u8 NcAsmOnOffValue.on = 1
nc_asm_on_off_value_to_u8 NcAsmOnOffValue.unknown = 0xFF

abbrev nc_asm_on_off_value_variants : List NcAsmOnOffValue
nc_asm_on_off_value_variants =
    NcAsmOnOffValue.off ∷ NcAsmOnOffValue.on ∷ NcAsmOnOffValue.unknown ∷ []

pub find_variant-nc_asm_on_off_value_to_u8 :
    (x : NcAsmOnOffValue)
    → find_variant nc_asm_on_off_value_to_u8 NcAsmOnOffValue.unknown nc_asm_on_off_value_variants
        (nc_asm_on_off_value_to_u8 x)
      ≡ x
unfolding find_variant nc_asm_on_off_value_to_u8
find_variant-nc_asm_on_off_value_to_u8 NcAsmOnOffValue.off = refl
find_variant-nc_asm_on_off_value_to_u8 _ = refl

instance abbrev pub nc_asm_on_off_value_enum : U8Enum NcAsmOnOffValue
nc_asm_on_off_value_enum = record {
  to_u8 = nc_asm_on_off_value_to_u8;
  variants = nc_asm_on_off_value_variants;
  unknown = NcAsmOnOffValue.unknown;
  from_u8-to_u8 = find_variant-nc_asm_on_off_value_to_u8;
}

pub data NcAsmMode : Type 0 where
  nc asm unknown : NcAsmMode

unfoldable pub nc_asm_mode_to_u8 : NcAsmMode → ℕ
nc_asm_mode_to_u8 NcAsmMode.nc = 0
nc_asm_mode_to_u8 NcAsmMode.asm = 1
nc_asm_mode_to_u8 NcAsmMode.unknown = 0xFF

abbrev nc_asm_mode_variants : List NcAsmMode
nc_asm_mode_variants = NcAsmMode.nc ∷ NcAsmMode.asm ∷ NcAsmMode.unknown ∷ []

pub find_variant-nc_asm_mode_to_u8 :
    (x : NcAsmMode)
    → find_variant nc_asm_mode_to_u8 NcAsmMode.unknown nc_asm_mode_variants (nc_asm_mode_to_u8 x)
      ≡ x
unfolding find_variant nc_asm_mode_to_u8
find_variant-nc_asm_mode_to_u8 NcAsmMode.nc = refl
find_variant-nc_asm_mode_to_u8 _ = refl

instance abbrev pub nc_asm_mode_enum : U8Enum NcAsmMode
nc_asm_mode_enum = record {
  to_u8 = nc_asm_mode_to_u8;
  variants = nc_asm_mode_variants;
  unknown = NcAsmMode.unknown;
  from_u8-to_u8 = find_variant-nc_asm_mode_to_u8;
}

pub data AmbientSoundMode : Type 0 where
  normal voice unknown : AmbientSoundMode

unfoldable pub ambient_sound_mode_to_u8 : AmbientSoundMode → ℕ
ambient_sound_mode_to_u8 AmbientSoundMode.normal = 0
ambient_sound_mode_to_u8 AmbientSoundMode.voice = 1
ambient_sound_mode_to_u8 AmbientSoundMode.unknown = 0xFF

abbrev ambient_sound_mode_variants : List AmbientSoundMode
ambient_sound_mode_variants =
    AmbientSoundMode.normal ∷ AmbientSoundMode.voice ∷ AmbientSoundMode.unknown ∷ []

pub find_variant-ambient_sound_mode_to_u8 :
    (x : AmbientSoundMode)
    → find_variant ambient_sound_mode_to_u8 AmbientSoundMode.unknown ambient_sound_mode_variants
        (ambient_sound_mode_to_u8 x)
      ≡ x
unfolding find_variant ambient_sound_mode_to_u8
find_variant-ambient_sound_mode_to_u8 AmbientSoundMode.normal = refl
find_variant-ambient_sound_mode_to_u8 _ = refl

instance abbrev pub ambient_sound_mode_enum : U8Enum AmbientSoundMode
ambient_sound_mode_enum = record {
  to_u8 = ambient_sound_mode_to_u8;
  variants = ambient_sound_mode_variants;
  unknown = AmbientSoundMode.unknown;
  from_u8-to_u8 = find_variant-ambient_sound_mode_to_u8;
}

pub data NoiseAdaptiveSensitivity : Type 0 where
  standard high low unknown : NoiseAdaptiveSensitivity

unfoldable pub noise_adaptive_sensitivity_to_u8 : NoiseAdaptiveSensitivity → ℕ
noise_adaptive_sensitivity_to_u8 NoiseAdaptiveSensitivity.standard = 0
noise_adaptive_sensitivity_to_u8 NoiseAdaptiveSensitivity.high = 1
noise_adaptive_sensitivity_to_u8 NoiseAdaptiveSensitivity.low = 2
noise_adaptive_sensitivity_to_u8 NoiseAdaptiveSensitivity.unknown = 0xFF

abbrev noise_adaptive_sensitivity_variants : List NoiseAdaptiveSensitivity
noise_adaptive_sensitivity_variants =
    NoiseAdaptiveSensitivity.standard ∷ NoiseAdaptiveSensitivity.high ∷ NoiseAdaptiveSensitivity.low
    ∷ NoiseAdaptiveSensitivity.unknown ∷ []

pub find_variant-noise_adaptive_sensitivity_to_u8 :
    (x : NoiseAdaptiveSensitivity)
    → find_variant noise_adaptive_sensitivity_to_u8 NoiseAdaptiveSensitivity.unknown
        noise_adaptive_sensitivity_variants
        (noise_adaptive_sensitivity_to_u8 x)
      ≡ x
unfolding find_variant noise_adaptive_sensitivity_to_u8
find_variant-noise_adaptive_sensitivity_to_u8 NoiseAdaptiveSensitivity.standard = refl
find_variant-noise_adaptive_sensitivity_to_u8 _ = refl

instance abbrev pub noise_adaptive_sensitivity_enum : U8Enum NoiseAdaptiveSensitivity
noise_adaptive_sensitivity_enum = record {
  to_u8 = noise_adaptive_sensitivity_to_u8;
  variants = noise_adaptive_sensitivity_variants;
  unknown = NoiseAdaptiveSensitivity.unknown;
  from_u8-to_u8 = find_variant-noise_adaptive_sensitivity_to_u8;
}
