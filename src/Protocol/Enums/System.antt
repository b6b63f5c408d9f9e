-- ===== src/Protocol/Enums/System.antt =====
-- The system types of src/protocol/enums.rs: the variants, their bytes,
-- and the instances by which `from_u8`, `to_u8` and `==` apply.
use sony_buds_tray_control.Prelude.{ℕ, ◌≡◌, refl, List, [], ◌∷◌}
use sony_buds_tray_control.Protocol.Enums.Macro.{U8Enum, find_variant}

pub data SystemInquiredType : Type 0 where
  vibrator playback_control_by_wearing smart_talking_mode_type1 assignable_settings :
      SystemInquiredType
  voice_assistant_settings voice_assistant_wake_word wearing_status_detector : SystemInquiredType
  earpiece_selection call_settings reset_settings auto_volume face_tap_test_mode :
      SystemInquiredType
  smart_talking_mode_type2 quick_access assignable_settings_with_limitation : SystemInquiredType
  head_gesture_on_off head_gesture_training unknown : SystemInquiredType

unfoldable pub system_inquired_type_to_u8 : SystemInquiredType → ℕ
system_inquired_type_to_u8 SystemInquiredType.vibrator = 0x00
system_inquired_type_to_u8 SystemInquiredType.playback_control_by_wearing = 0x01
system_inquired_type_to_u8 SystemInquiredType.smart_talking_mode_type1 = 0x02
system_inquired_type_to_u8 SystemInquiredType.assignable_settings = 0x03
system_inquired_type_to_u8 SystemInquiredType.voice_assistant_settings = 0x04
system_inquired_type_to_u8 SystemInquiredType.voice_assistant_wake_word = 0x05
system_inquired_type_to_u8 SystemInquiredType.wearing_status_detector = 0x06
system_inquired_type_to_u8 SystemInquiredType.earpiece_selection = 0x07
system_inquired_type_to_u8 SystemInquiredType.call_settings = 0x08
system_inquired_type_to_u8 SystemInquiredType.reset_settings = 0x09
system_inquired_type_to_u8 SystemInquiredType.auto_volume = 0x0A
system_inquired_type_to_u8 SystemInquiredType.face_tap_test_mode = 0x0B
system_inquired_type_to_u8 SystemInquiredType.smart_talking_mode_type2 = 0x0C
system_inquired_type_to_u8 SystemInquiredType.quick_access = 0x0D
system_inquired_type_to_u8 SystemInquiredType.assignable_settings_with_limitation = 0x0E
system_inquired_type_to_u8 SystemInquiredType.head_gesture_on_off = 0x0F
system_inquired_type_to_u8 SystemInquiredType.head_gesture_training = 0x10
system_inquired_type_to_u8 SystemInquiredType.unknown = 0xFF

abbrev system_inquired_type_variants : List SystemInquiredType
system_inquired_type_variants =
    SystemInquiredType.vibrator ∷ SystemInquiredType.playback_control_by_wearing
    ∷ SystemInquiredType.smart_talking_mode_type1 ∷ SystemInquiredType.assignable_settings
    ∷ SystemInquiredType.voice_assistant_settings ∷ SystemInquiredType.voice_assistant_wake_word
    ∷ SystemInquiredType.wearing_status_detector ∷ SystemInquiredType.earpiece_selection
    ∷ SystemInquiredType.call_settings ∷ SystemInquiredType.reset_settings
    ∷ SystemInquiredType.auto_volume ∷ SystemInquiredType.face_tap_test_mode
    ∷ SystemInquiredType.smart_talking_mode_type2 ∷ SystemInquiredType.quick_access
    ∷ SystemInquiredType.assignable_settings_with_limitation
    ∷ SystemInquiredType.head_gesture_on_off ∷ SystemInquiredType.head_gesture_training
    ∷ SystemInquiredType.unknown ∷ []

pub find_variant-system_inquired_type_to_u8 :
    (x : SystemInquiredType)
    → find_variant system_inquired_type_to_u8 SystemInquiredType.unknown
        system_inquired_type_variants
        (system_inquired_type_to_u8 x)
      ≡ x
unfolding find_variant system_inquired_type_to_u8
find_variant-system_inquired_type_to_u8 SystemInquiredType.vibrator = refl
find_variant-system_inquired_type_to_u8 _ = refl

instance abbrev pub system_inquired_type_enum : U8Enum SystemInquiredType
system_inquired_type_enum = record {
  to_u8 = system_inquired_type_to_u8;
  variants = system_inquired_type_variants;
  unknown = SystemInquiredType.unknown;
  from_u8-to_u8 = find_variant-system_inquired_type_to_u8;
}

pub data Preset : Type 0 where
  ambient_sound_control volume_control playback_control track_control : Preset
  playback_control_voice_assistant_limitation voice_recognition google_assist : Preset
  amazon_alexa tencent_xiaowei ms ambient_sound_control_quick_access quick_access : Preset
  tencent_xiaowei_q_msc teams ambient_sound_control_mic listening_mode_quick_access : Preset
  chat_mix custom1 custom2 no_function unknown : Preset

unfoldable pub preset_to_u8 : Preset → ℕ
preset_to_u8 Preset.ambient_sound_control = 0x00
preset_to_u8 Preset.volume_control = 0x10
preset_to_u8 Preset.playback_control = 0x20
preset_to_u8 Preset.track_control = 0x21
preset_to_u8 Preset.playback_control_voice_assistant_limitation = 0x22
preset_to_u8 Preset.voice_recognition = 0x30
preset_to_u8 Preset.google_assist = 0x31
preset_to_u8 Preset.amazon_alexa = 0x32
preset_to_u8 Preset.tencent_xiaowei = 0x33
preset_to_u8 Preset.ms = 0x34
preset_to_u8 Preset.ambient_sound_control_quick_access = 0x35
preset_to_u8 Preset.quick_access = 0x36
preset_to_u8 Preset.tencent_xiaowei_q_msc = 0x37
preset_to_u8 Preset.teams = 0x38
preset_to_u8 Preset.ambient_sound_control_mic = 0x45
preset_to_u8 Preset.listening_mode_quick_access = 0x46
preset_to_u8 Preset.chat_mix = 0x70
preset_to_u8 Preset.custom1 = 0x71
preset_to_u8 Preset.custom2 = 0x72
preset_to_u8 Preset.no_function = 0xFF
preset_to_u8 Preset.unknown = 0xFE

abbrev preset_variants : List Preset
preset_variants =
    Preset.ambient_sound_control ∷ Preset.volume_control ∷ Preset.playback_control
    ∷ Preset.track_control ∷ Preset.playback_control_voice_assistant_limitation
    ∷ Preset.voice_recognition ∷ Preset.google_assist ∷ Preset.amazon_alexa ∷ Preset.tencent_xiaowei
    ∷ Preset.ms ∷ Preset.ambient_sound_control_quick_access ∷ Preset.quick_access
    ∷ Preset.tencent_xiaowei_q_msc ∷ Preset.teams ∷ Preset.ambient_sound_control_mic
    ∷ Preset.listening_mode_quick_access ∷ Preset.chat_mix ∷ Preset.custom1 ∷ Preset.custom2
    ∷ Preset.no_function ∷ Preset.unknown ∷ []

pub find_variant-preset_to_u8 :
    (x : Preset) → find_variant preset_to_u8 Preset.unknown preset_variants (preset_to_u8 x) ≡ x
unfolding find_variant preset_to_u8
find_variant-preset_to_u8 Preset.ambient_sound_control = refl
find_variant-preset_to_u8 _ = refl

instance abbrev pub preset_enum : U8Enum Preset
preset_enum = record {
  to_u8 = preset_to_u8;
  variants = preset_variants;
  unknown = Preset.unknown;
  from_u8-to_u8 = find_variant-preset_to_u8;
}

pub data DetectSensitivity : Type 0 where
  auto high low unknown : DetectSensitivity

unfoldable pub detect_sensitivity_to_u8 : DetectSensitivity → ℕ
detect_sensitivity_to_u8 DetectSensitivity.auto = 0x00
detect_sensitivity_to_u8 DetectSensitivity.high = 0x01
detect_sensitivity_to_u8 DetectSensitivity.low = 0x02
detect_sensitivity_to_u8 DetectSensitivity.unknown = 0xFF

abbrev detect_sensitivity_variants : List DetectSensitivity
detect_sensitivity_variants =
    DetectSensitivity.auto ∷ DetectSensitivity.high ∷ DetectSensitivity.low
    ∷ DetectSensitivity.unknown ∷ []

pub find_variant-detect_sensitivity_to_u8 :
    (x : DetectSensitivity)
    → find_variant detect_sensitivity_to_u8 DetectSensitivity.unknown detect_sensitivity_variants
        (detect_sensitivity_to_u8 x)
      ≡ x
unfolding find_variant detect_sensitivity_to_u8
find_variant-detect_sensitivity_to_u8 DetectSensitivity.auto = refl
find_variant-detect_sensitivity_to_u8 _ = refl

instance abbrev pub detect_sensitivity_enum : U8Enum DetectSensitivity
detect_sensitivity_enum = record {
  to_u8 = detect_sensitivity_to_u8;
  variants = detect_sensitivity_variants;
  unknown = DetectSensitivity.unknown;
  from_u8-to_u8 = find_variant-detect_sensitivity_to_u8;
}

pub data ModeOutTime : Type 0 where
  fast mid slow none unknown : ModeOutTime

unfoldable pub mode_out_time_to_u8 : ModeOutTime → ℕ
mode_out_time_to_u8 ModeOutTime.fast = 0x00
mode_out_time_to_u8 ModeOutTime.mid = 0x01
mode_out_time_to_u8 ModeOutTime.slow = 0x02
mode_out_time_to_u8 ModeOutTime.none = 0x03
mode_out_time_to_u8 ModeOutTime.unknown = 0xFF

abbrev mode_out_time_variants : List ModeOutTime
mode_out_time_variants =
    ModeOutTime.fast ∷ ModeOutTime.mid ∷ ModeOutTime.slow ∷ ModeOutTime.none ∷ ModeOutTime.unknown
    ∷ []

pub find_variant-mode_out_time_to_u8 :
    (x : ModeOutTime)
    → find_variant mode_out_time_to_u8 ModeOutTime.unknown mode_out_time_variants
        (mode_out_time_to_u8 x)
      ≡ x
unfolding find_variant mode_out_time_to_u8
find_variant-mode_out_time_to_u8 ModeOutTime.fast = refl
find_variant-mode_out_time_to_u8 _ = refl

instance abbrev pub mode_out_time_enum : U8Enum ModeOutTime
mode_out_time_enum = record {
  to_u8 = mode_out_time_to_u8;
  variants = mode_out_time_variants;
  unknown = ModeOutTime.unknown;
  from_u8-to_u8 = find_variant-mode_out_time_to_u8;
}
