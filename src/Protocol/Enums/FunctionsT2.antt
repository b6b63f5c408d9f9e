-- ===== src/Protocol/Enums/FunctionsT2.antt =====
-- The support function table 2 of src/protocol/enums.rs: the variants, their bytes,
-- and the instances by which `from_u8`, `to_u8` and `==` apply.
use sony_buds_tray_control.Prelude.{ℕ, ◌≡◌, refl, List, [], ◌∷◌}
use sony_buds_tray_control.Protocol.Enums.Macro.{U8Enum, find_variant}

pub data FunctionTable2 : Type 0 where
  auto_standby charge_in_use caring_charge_with_threshold usb_submersion : FunctionTable2
  pairing_device_management_classic_bt source_switch_control : FunctionTable2
  pairing_device_management_with_bluetooth_class_of_device_classic_bt : FunctionTable2
  pairing_device_management_with_bluetooth_class_of_device_classic_le : FunctionTable2
  music_hand_over_setting : FunctionTable2
  voice_guidance_setting_mtk_transfer_without_disconnection_not_support_language_switch :
      FunctionTable2
  voice_guidance_setting_mtk_transfer_without_disconnection_support_language_switch : FunctionTable2
  voice_guidance_setting_mtk_transfer_without_disconnection_support_language_switch_and_volume_adjustment :
      FunctionTable2
  voice_guidance_volume_setting_mtk_fixed_to5_steps : FunctionTable2
  voice_guidance_setting_support_language_switch : FunctionTable2
  voice_guidance_setting_only_on_off_switch voice_guidance_battery_level_voice : FunctionTable2
  voice_guidance_power_on_off_sound voice_guidance_sound_effect_ult_beep_on_off : FunctionTable2
  safe_listening_hbs1 safe_listening_tws1 safe_listening_hbs2 safe_listening_tws2 : FunctionTable2
  safe_volume_control le_audio_connection_state_notification : FunctionTable2
  le_audio_switch_supported_compatibility le_audio_connection_mode : FunctionTable2
  get_identity_resolving_key link_auto_switch_cant_be_used_with_lea_connection : FunctionTable2
  dj_control illumination karaoke wearing_status_checker repeat_tap_training_mode : FunctionTable2
  quick_access_easy_setting auto_volume_optimizer auto_volume_with_limitation : FunctionTable2
  sony_voice_assistant wearing_position link_auto_switch_for_speaker : FunctionTable2
  link_auto_switch_for_headsets mic_on_off_by_headphone_operation function_change : FunctionTable2
  usb_browser lighting_mode unknown : FunctionTable2

unfoldable pub function_table2_to_u8 : FunctionTable2 → ℕ
function_table2_to_u8 FunctionTable2.auto_standby = 0x20
function_table2_to_u8 FunctionTable2.charge_in_use = 0x21
function_table2_to_u8 FunctionTable2.caring_charge_with_threshold = 0x22
function_table2_to_u8 FunctionTable2.usb_submersion = 0x23
function_table2_to_u8 FunctionTable2.pairing_device_management_classic_bt = 0x30
function_table2_to_u8 FunctionTable2.source_switch_control = 0x31
function_table2_to_u8
      FunctionTable2.pairing_device_management_with_bluetooth_class_of_device_classic_bt =
    0x32
function_table2_to_u8
      FunctionTable2.pairing_device_management_with_bluetooth_class_of_device_classic_le =
    0x33
function_table2_to_u8 FunctionTable2.music_hand_over_setting = 0x34
function_table2_to_u8
      FunctionTable2.voice_guidance_setting_mtk_transfer_without_disconnection_not_support_language_switch =
    0x40
function_table2_to_u8
      FunctionTable2.voice_guidance_setting_mtk_transfer_without_disconnection_support_language_switch =
    0x41
function_table2_to_u8
      FunctionTable2.voice_guidance_setting_mtk_transfer_without_disconnection_support_language_switch_and_volume_adjustment =
    0x42
function_table2_to_u8 FunctionTable2.voice_guidance_volume_setting_mtk_fixed_to5_steps = 0x43
function_table2_to_u8 FunctionTable2.voice_guidance_setting_support_language_switch = 0x44
function_table2_to_u8 FunctionTable2.voice_guidance_setting_only_on_off_switch = 0x45
function_table2_to_u8 FunctionTable2.voice_guidance_battery_level_voice = 0x46
function_table2_to_u8 FunctionTable2.voice_guidance_power_on_off_sound = 0x47
function_table2_to_u8 FunctionTable2.voice_guidance_sound_effect_ult_beep_on_off = 0x48
function_table2_to_u8 FunctionTable2.safe_listening_hbs1 = 0x50
function_table2_to_u8 FunctionTable2.safe_listening_tws1 = 0x51
function_table2_to_u8 FunctionTable2.safe_listening_hbs2 = 0x52
function_table2_to_u8 FunctionTable2.safe_listening_tws2 = 0x53
function_table2_to_u8 FunctionTable2.safe_volume_control = 0x54
function_table2_to_u8 FunctionTable2.le_audio_connection_state_notification = 0x60
function_table2_to_u8 FunctionTable2.le_audio_switch_supported_compatibility = 0x61
function_table2_to_u8 FunctionTable2.le_audio_connection_mode = 0x62
function_table2_to_u8 FunctionTable2.get_identity_resolving_key = 0x63
function_table2_to_u8 FunctionTable2.link_auto_switch_cant_be_used_with_lea_connection = 0x6F
function_table2_to_u8 FunctionTable2.dj_control = 0x70
function_table2_to_u8 FunctionTable2.illumination = 0x71
function_table2_to_u8 FunctionTable2.karaoke = 0x72
function_table2_to_u8 FunctionTable2.wearing_status_checker = 0xF0
function_table2_to_u8 FunctionTable2.repeat_tap_training_mode = 0xF1
function_table2_to_u8 FunctionTable2.quick_access_easy_setting = 0xF2
function_table2_to_u8 FunctionTable2.auto_volume_optimizer = 0xF3
function_table2_to_u8 FunctionTable2.auto_volume_with_limitation = 0xF4
function_table2_to_u8 FunctionTable2.sony_voice_assistant = 0xF5
function_table2_to_u8 FunctionTable2.wearing_position = 0xF6
function_table2_to_u8 FunctionTable2.link_auto_switch_for_speaker = 0xF7
function_table2_to_u8 FunctionTable2.link_auto_switch_for_headsets = 0xF8
function_table2_to_u8 FunctionTable2.mic_on_off_by_headphone_operation = 0xF9
function_table2_to_u8 FunctionTable2.function_change = 0xFA
function_table2_to_u8 FunctionTable2.usb_browser = 0xFB
function_table2_to_u8 FunctionTable2.lighting_mode = 0xFC
function_table2_to_u8 FunctionTable2.unknown = 0x00

abbrev function_table2_variants : List FunctionTable2
function_table2_variants =
    FunctionTable2.auto_standby ∷ FunctionTable2.charge_in_use
    ∷ FunctionTable2.caring_charge_with_threshold ∷ FunctionTable2.usb_submersion
    ∷ FunctionTable2.pairing_device_management_classic_bt ∷ FunctionTable2.source_switch_control
    ∷ FunctionTable2.pairing_device_management_with_bluetooth_class_of_device_classic_bt
    ∷ FunctionTable2.pairing_device_management_with_bluetooth_class_of_device_classic_le
    ∷ FunctionTable2.music_hand_over_setting
    ∷ FunctionTable2.voice_guidance_setting_mtk_transfer_without_disconnection_not_support_language_switch
    ∷ FunctionTable2.voice_guidance_setting_mtk_transfer_without_disconnection_support_language_switch
    ∷ FunctionTable2.voice_guidance_setting_mtk_transfer_without_disconnection_support_language_switch_and_volume_adjustment
    ∷ FunctionTable2.voice_guidance_volume_setting_mtk_fixed_to5_steps
    ∷ FunctionTable2.voice_guidance_setting_support_language_switch
    ∷ FunctionTable2.voice_guidance_setting_only_on_off_switch
    ∷ FunctionTable2.voice_guidance_battery_level_voice
    ∷ FunctionTable2.voice_guidance_power_on_off_sound
    ∷ FunctionTable2.voice_guidance_sound_effect_ult_beep_on_off
    ∷ FunctionTable2.safe_listening_hbs1 ∷ FunctionTable2.safe_listening_tws1
    ∷ FunctionTable2.safe_listening_hbs2 ∷ FunctionTable2.safe_listening_tws2
    ∷ FunctionTable2.safe_volume_control ∷ FunctionTable2.le_audio_connection_state_notification
    ∷ FunctionTable2.le_audio_switch_supported_compatibility
    ∷ FunctionTable2.le_audio_connection_mode ∷ FunctionTable2.get_identity_resolving_key
    ∷ FunctionTable2.link_auto_switch_cant_be_used_with_lea_connection ∷ FunctionTable2.dj_control
    ∷ FunctionTable2.illumination ∷ FunctionTable2.karaoke ∷ FunctionTable2.wearing_status_checker
    ∷ FunctionTable2.repeat_tap_training_mode ∷ FunctionTable2.quick_access_easy_setting
    ∷ FunctionTable2.auto_volume_optimizer ∷ FunctionTable2.auto_volume_with_limitation
    ∷ FunctionTable2.sony_voice_assistant ∷ FunctionTable2.wearing_position
    ∷ FunctionTable2.link_auto_switch_for_speaker ∷ FunctionTable2.link_auto_switch_for_headsets
    ∷ FunctionTable2.mic_on_off_by_headphone_operation ∷ FunctionTable2.function_change
    ∷ FunctionTable2.usb_browser ∷ FunctionTable2.lighting_mode ∷ FunctionTable2.unknown ∷ []

pub find_variant-function_table2_to_u8 :
    (x : FunctionTable2)
    → find_variant function_table2_to_u8 FunctionTable2.unknown function_table2_variants
        (function_table2_to_u8 x)
      ≡ x
unfolding find_variant function_table2_to_u8
find_variant-function_table2_to_u8 FunctionTable2.auto_standby = refl
find_variant-function_table2_to_u8 _ = refl

instance abbrev pub function_table2_enum : U8Enum FunctionTable2
function_table2_enum = record {
  to_u8 = function_table2_to_u8;
  variants = function_table2_variants;
  unknown = FunctionTable2.unknown;
  from_u8-to_u8 = find_variant-function_table2_to_u8;
}
