-- ===== src/Protocol/Enums/OpcodesT2.antt =====
-- The table 2 command opcodes and inquired types of src/protocol/enums.rs: the variants, their bytes,
-- and the instances by which `from_u8`, `to_u8` and `==` apply.
use sony_buds_tray_control.Prelude.{ℕ, ◌≡◌, refl, List, [], ◌∷◌}
use sony_buds_tray_control.Protocol.Enums.Macro.{U8Enum, find_variant}

pub data CommandT2 : Type 0 where
  connect_ret_protocol_info connect_get_support_function connect_ret_support_function : CommandT2
  peri_get_status peri_ret_status peri_set_status peri_ntfy_status peri_get_param : CommandT2
  peri_ret_param peri_set_param peri_ntfy_param peri_set_extended_param : CommandT2
  peri_ntfy_extended_param voice_guidance_get_param voice_guidance_ret_param : CommandT2
  voice_guidance_set_param voice_guidance_ntfy_param unknown : CommandT2

unfoldable pub command_t2_to_u8 : CommandT2 → ℕ
command_t2_to_u8 CommandT2.connect_ret_protocol_info = 0x01
command_t2_to_u8 CommandT2.connect_get_support_function = 0x06
command_t2_to_u8 CommandT2.connect_ret_support_function = 0x07
command_t2_to_u8 CommandT2.peri_get_status = 0x32
command_t2_to_u8 CommandT2.peri_ret_status = 0x33
command_t2_to_u8 CommandT2.peri_set_status = 0x34
command_t2_to_u8 CommandT2.peri_ntfy_status = 0x35
command_t2_to_u8 CommandT2.peri_get_param = 0x36
command_t2_to_u8 CommandT2.peri_ret_param = 0x37
command_t2_to_u8 CommandT2.peri_set_param = 0x38
command_t2_to_u8 CommandT2.peri_ntfy_param = 0x39
command_t2_to_u8 CommandT2.peri_set_extended_param = 0x3C
command_t2_to_u8 CommandT2.peri_ntfy_extended_param = 0x3D
command_t2_to_u8 CommandT2.voice_guidance_get_param = 0x46
command_t2_to_u8 CommandT2.voice_guidance_ret_param = 0x47
command_t2_to_u8 CommandT2.voice_guidance_set_param = 0x48
command_t2_to_u8 CommandT2.voice_guidance_ntfy_param = 0x49
command_t2_to_u8 CommandT2.unknown = 0xFF

abbrev command_t2_variants : List CommandT2
command_t2_variants =
    CommandT2.connect_ret_protocol_info ∷ CommandT2.connect_get_support_function
    ∷ CommandT2.connect_ret_support_function ∷ CommandT2.peri_get_status ∷ CommandT2.peri_ret_status
    ∷ CommandT2.peri_set_status ∷ CommandT2.peri_ntfy_status ∷ CommandT2.peri_get_param
    ∷ CommandT2.peri_ret_param ∷ CommandT2.peri_set_param ∷ CommandT2.peri_ntfy_param
    ∷ CommandT2.peri_set_extended_param ∷ CommandT2.peri_ntfy_extended_param
    ∷ CommandT2.voice_guidance_get_param ∷ CommandT2.voice_guidance_ret_param
    ∷ CommandT2.voice_guidance_set_param ∷ CommandT2.voice_guidance_ntfy_param ∷ CommandT2.unknown
    ∷ []

pub find_variant-command_t2_to_u8 :
    (x : CommandT2)
    → find_variant command_t2_to_u8 CommandT2.unknown command_t2_variants (command_t2_to_u8 x) ≡ x
unfolding find_variant command_t2_to_u8
find_variant-command_t2_to_u8 CommandT2.connect_ret_protocol_info = refl
find_variant-command_t2_to_u8 _ = refl

instance abbrev pub command_t2_enum : U8Enum CommandT2
command_t2_enum = record {
  to_u8 = command_t2_to_u8;
  variants = command_t2_variants;
  unknown = CommandT2.unknown;
  from_u8-to_u8 = find_variant-command_t2_to_u8;
}

pub data PeripheralInquiredType : Type 0 where
  pairing_device_management_classic_bt source_switch_control : PeripheralInquiredType
  pairing_device_management_with_bluetooth_class_of_device music_hand_over_setting :
      PeripheralInquiredType
  unknown : PeripheralInquiredType

unfoldable pub peripheral_inquired_type_to_u8 : PeripheralInquiredType → ℕ
peripheral_inquired_type_to_u8 PeripheralInquiredType.pairing_device_management_classic_bt = 0x00
peripheral_inquired_type_to_u8 PeripheralInquiredType.source_switch_control = 0x01
peripheral_inquired_type_to_u8
      PeripheralInquiredType.pairing_device_management_with_bluetooth_class_of_device =
    0x02
peripheral_inquired_type_to_u8 PeripheralInquiredType.music_hand_over_setting = 0x03
peripheral_inquired_type_to_u8 PeripheralInquiredType.unknown = 0xFF

abbrev peripheral_inquired_type_variants : List PeripheralInquiredType
peripheral_inquired_type_variants =
    PeripheralInquiredType.pairing_device_management_classic_bt
    ∷ PeripheralInquiredType.source_switch_control
    ∷ PeripheralInquiredType.pairing_device_management_with_bluetooth_class_of_device
    ∷ PeripheralInquiredType.music_hand_over_setting ∷ PeripheralInquiredType.unknown ∷ []

pub find_variant-peripheral_inquired_type_to_u8 :
    (x : PeripheralInquiredType)
    → find_variant peripheral_inquired_type_to_u8 PeripheralInquiredType.unknown
        peripheral_inquired_type_variants
        (peripheral_inquired_type_to_u8 x)
      ≡ x
unfolding find_variant peripheral_inquired_type_to_u8
find_variant-peripheral_inquired_type_to_u8
      PeripheralInquiredType.pairing_device_management_classic_bt =
    refl
find_variant-peripheral_inquired_type_to_u8 _ = refl

instance abbrev pub peripheral_inquired_type_enum : U8Enum PeripheralInquiredType
peripheral_inquired_type_enum = record {
  to_u8 = peripheral_inquired_type_to_u8;
  variants = peripheral_inquired_type_variants;
  unknown = PeripheralInquiredType.unknown;
  from_u8-to_u8 = find_variant-peripheral_inquired_type_to_u8;
}

pub data ConnectivityActionType : Type 0 where
  disconnect connect unpair unknown : ConnectivityActionType

unfoldable pub connectivity_action_type_to_u8 : ConnectivityActionType → ℕ
connectivity_action_type_to_u8 ConnectivityActionType.disconnect = 0x00
connectivity_action_type_to_u8 ConnectivityActionType.connect = 0x01
connectivity_action_type_to_u8 ConnectivityActionType.unpair = 0x02
connectivity_action_type_to_u8 ConnectivityActionType.unknown = 0xFF

abbrev connectivity_action_type_variants : List ConnectivityActionType
connectivity_action_type_variants =
    ConnectivityActionType.disconnect ∷ ConnectivityActionType.connect
    ∷ ConnectivityActionType.unpair ∷ ConnectivityActionType.unknown ∷ []

pub find_variant-connectivity_action_type_to_u8 :
    (x : ConnectivityActionType)
    → find_variant connectivity_action_type_to_u8 ConnectivityActionType.unknown
        connectivity_action_type_variants
        (connectivity_action_type_to_u8 x)
      ≡ x
unfolding find_variant connectivity_action_type_to_u8
find_variant-connectivity_action_type_to_u8 ConnectivityActionType.disconnect = refl
find_variant-connectivity_action_type_to_u8 _ = refl

instance abbrev pub connectivity_action_type_enum : U8Enum ConnectivityActionType
connectivity_action_type_enum = record {
  to_u8 = connectivity_action_type_to_u8;
  variants = connectivity_action_type_variants;
  unknown = ConnectivityActionType.unknown;
  from_u8-to_u8 = find_variant-connectivity_action_type_to_u8;
}

pub data SourceSwitchControlResult : Type 0 where
  success fail fail_calling fail_a2dp_not_connect fail_give_priority_to_voice_assistant :
      SourceSwitchControlResult
  unknown : SourceSwitchControlResult

unfoldable pub source_switch_control_result_to_u8 : SourceSwitchControlResult → ℕ
source_switch_control_result_to_u8 SourceSwitchControlResult.success = 0x00
source_switch_control_result_to_u8 SourceSwitchControlResult.fail = 0x01
source_switch_control_result_to_u8 SourceSwitchControlResult.fail_calling = 0x02
source_switch_control_result_to_u8 SourceSwitchControlResult.fail_a2dp_not_connect = 0x03
source_switch_control_result_to_u8 SourceSwitchControlResult.fail_give_priority_to_voice_assistant =
    0x04
source_switch_control_result_to_u8 SourceSwitchControlResult.unknown = 0xFF

abbrev source_switch_control_result_variants : List SourceSwitchControlResult
source_switch_control_result_variants =
    SourceSwitchControlResult.success ∷ SourceSwitchControlResult.fail
    ∷ SourceSwitchControlResult.fail_calling ∷ SourceSwitchControlResult.fail_a2dp_not_connect
    ∷ SourceSwitchControlResult.fail_give_priority_to_voice_assistant
    ∷ SourceSwitchControlResult.unknown ∷ []

pub find_variant-source_switch_control_result_to_u8 :
    (x : SourceSwitchControlResult)
    → find_variant source_switch_control_result_to_u8 SourceSwitchControlResult.unknown
        source_switch_control_result_variants
        (source_switch_control_result_to_u8 x)
      ≡ x
unfolding find_variant source_switch_control_result_to_u8
find_variant-source_switch_control_result_to_u8 SourceSwitchControlResult.success = refl
find_variant-source_switch_control_result_to_u8 _ = refl

instance abbrev pub source_switch_control_result_enum : U8Enum SourceSwitchControlResult
source_switch_control_result_enum = record {
  to_u8 = source_switch_control_result_to_u8;
  variants = source_switch_control_result_variants;
  unknown = SourceSwitchControlResult.unknown;
  from_u8-to_u8 = find_variant-source_switch_control_result_to_u8;
}

pub data VoiceGuidanceInquiredType : Type 0 where
  mtk_transfer_wo_disconnection_not_support_language_switch : VoiceGuidanceInquiredType
  mtk_transfer_wo_disconnection_support_language_switch support_language_switch :
      VoiceGuidanceInquiredType
  only_on_off_setting volume volume_setting_fixed_to5_steps battery_level_voice :
      VoiceGuidanceInquiredType
  power_on_off_sound sound_effect_ult_beep_on_off unknown : VoiceGuidanceInquiredType

unfoldable pub voice_guidance_inquired_type_to_u8 : VoiceGuidanceInquiredType → ℕ
voice_guidance_inquired_type_to_u8
      VoiceGuidanceInquiredType.mtk_transfer_wo_disconnection_not_support_language_switch =
    0x00
voice_guidance_inquired_type_to_u8
      VoiceGuidanceInquiredType.mtk_transfer_wo_disconnection_support_language_switch =
    0x01
voice_guidance_inquired_type_to_u8 VoiceGuidanceInquiredType.support_language_switch = 0x02
voice_guidance_inquired_type_to_u8 VoiceGuidanceInquiredType.only_on_off_setting = 0x03
voice_guidance_inquired_type_to_u8 VoiceGuidanceInquiredType.volume = 0x20
voice_guidance_inquired_type_to_u8 VoiceGuidanceInquiredType.volume_setting_fixed_to5_steps = 0x21
voice_guidance_inquired_type_to_u8 VoiceGuidanceInquiredType.battery_level_voice = 0x30
voice_guidance_inquired_type_to_u8 VoiceGuidanceInquiredType.power_on_off_sound = 0x31
voice_guidance_inquired_type_to_u8 VoiceGuidanceInquiredType.sound_effect_ult_beep_on_off = 0x32
voice_guidance_inquired_type_to_u8 VoiceGuidanceInquiredType.unknown = 0xFF

abbrev voice_guidance_inquired_type_variants : List VoiceGuidanceInquiredType
voice_guidance_inquired_type_variants =
    VoiceGuidanceInquiredType.mtk_transfer_wo_disconnection_not_support_language_switch
    ∷ VoiceGuidanceInquiredType.mtk_transfer_wo_disconnection_support_language_switch
    ∷ VoiceGuidanceInquiredType.support_language_switch
    ∷ VoiceGuidanceInquiredType.only_on_off_setting ∷ VoiceGuidanceInquiredType.volume
    ∷ VoiceGuidanceInquiredType.volume_setting_fixed_to5_steps
    ∷ VoiceGuidanceInquiredType.battery_level_voice ∷ VoiceGuidanceInquiredType.power_on_off_sound
    ∷ VoiceGuidanceInquiredType.sound_effect_ult_beep_on_off ∷ VoiceGuidanceInquiredType.unknown
    ∷ []

pub find_variant-voice_guidance_inquired_type_to_u8 :
    (x : VoiceGuidanceInquiredType)
    → find_variant voice_guidance_inquired_type_to_u8 VoiceGuidanceInquiredType.unknown
        voice_guidance_inquired_type_variants
        (voice_guidance_inquired_type_to_u8 x)
      ≡ x
unfolding find_variant voice_guidance_inquired_type_to_u8
find_variant-voice_guidance_inquired_type_to_u8
      VoiceGuidanceInquiredType.mtk_transfer_wo_disconnection_not_support_language_switch =
    refl
find_variant-voice_guidance_inquired_type_to_u8 _ = refl

instance abbrev pub voice_guidance_inquired_type_enum : U8Enum VoiceGuidanceInquiredType
voice_guidance_inquired_type_enum = record {
  to_u8 = voice_guidance_inquired_type_to_u8;
  variants = voice_guidance_inquired_type_variants;
  unknown = VoiceGuidanceInquiredType.unknown;
  from_u8-to_u8 = find_variant-voice_guidance_inquired_type_to_u8;
}
