-- ===== src/Device/Engine/Build/Settings.antt =====
-- src/device/engine.rs, `build_commit_steps`: the blocks about other devices and settings.
use sony_buds_tray_control.Device.Engine.Build.Block.{
  Block, enable_if, only, send_commit, send_commit_t2, when,
}
use sony_buds_tray_control.Device.Engine.Build.Common.{command_t2}
use sony_buds_tray_control.Device.Engine.Defs.{
  PropCommit, Step, gs1, gs2, gs3, gs4, head_gesture, stc_enabled, stc_ext, touch_functions,
}
use sony_buds_tray_control.Device.State.{
  MultipointRequest, Prop, SupportFunctions, contains_t1, contains_t2, dirty, overwrite, request_eq,
}
use sony_buds_tray_control.Prelude.{
  Bool, List, Option, [], bool_eq, if◌then◌else◌, int_eq, list_eq, nat_eq, none, option_eq, some,
  ◌&&◌, ◌++◌, ◌||◌, ◌∷◌,
}
use sony_buds_tray_control.Protocol.Enums.{
  AutoPowerOffElements, ConnectivityActionType, EnableDisable, FunctionTable1, FunctionTable2,
  GsInquiredType, GsSettingValue, OnOffSetting, PeripheralInquiredType, PowerInquiredType,
  SystemInquiredType, VoiceGuidanceInquiredType, auto_power_off_elements_enum,
  connectivity_action_type_enum, detect_sensitivity_enum, enable_disable_enum, enum_eq,
  eq_preset_id_enum, function_enum, function_table1_enum, function_table2_enum,
  gs_inquired_type_enum, gs_setting_value_enum, mode_out_time_enum, nc_asm_mode_enum,
  noise_adaptive_sensitivity_enum, on_off_setting_enum, peripheral_inquired_type_enum,
  playback_control_enum, power_inquired_type_enum, preset_enum, room_size_enum,
  system_inquired_type_enum, to_u8, voice_guidance_inquired_type_enum,
}
use sony_buds_tray_control.Protocol.Payloads.{
  GsParamBoolean, PeripheralGetParam, PeripheralSetExtendedParamDeviceManagement,
  PeripheralSetExtendedParamSourceSwitch, PowerParamAutoPowerOff, SystemExtParamSmartTalkingMode2,
  SystemParamAssignableSettings, SystemParamCommon, SystemParamSmartTalking,
  VoiceGuidanceParamSettingMtk, VoiceGuidanceSetParamVolume, eq_ebb_get_param_payload,
  gs_param_boolean_payload, peripheral_get_param_payload,
  peripheral_set_extended_param_device_management_payload,
  peripheral_set_extended_param_source_switch_payload, power_param_auto_power_off_payload,
  power_set_status_power_off_payload, system_ext_param_smart_talking_mode2_payload,
  system_param_assignable_settings_payload, system_param_common_payload,
  system_param_smart_talking_payload, voice_guidance_param_setting_mtk_payload,
  voice_guidance_set_param_volume_payload,
}

abbrev pub device_list_type : SupportFunctions → PeripheralInquiredType
device_list_type s =
    if contains_t2 s
        FunctionTable2.pairing_device_management_with_bluetooth_class_of_device_classic_bt
      || contains_t2 s
          FunctionTable2.pairing_device_management_with_bluetooth_class_of_device_classic_le
    then PeripheralInquiredType.pairing_device_management_with_bluetooth_class_of_device
    else PeripheralInquiredType.pairing_device_management_classic_bt

unfoldable pub request_steps : SupportFunctions → MultipointRequest → List (Option Step)
unfolding contains_t2 command_t2
request_steps s (MultipointRequest.switch address) =
    command_t2 {A = PeripheralSetExtendedParamSourceSwitch} (record { address = address }) ∷ []
request_steps s (MultipointRequest.connect address) =
    command_t2 {A = PeripheralSetExtendedParamDeviceManagement} (record {
      type = device_list_type s;
      action = ConnectivityActionType.connect;
      address = address;
    })
    ∷ command_t2 {A = PeripheralGetParam} (record { type = device_list_type s })
    ∷ []

-- A request for another device is sent once, and forgotten.
unfoldable pub multipoint_block : SupportFunctions → Block
unfolding request_steps
multipoint_block s p = elim p.multipoint_request.desired [
  | none ↦ ([], p)
  | some req ↦
      (request_steps s req, record p { multipoint_request = overwrite p.multipoint_request none })
]

unfoldable pub stc_block : SupportFunctions → Block
unfolding contains_t1 send_commit
stc_block s = only λ p. when (contains_t1 s FunctionTable1.smart_talking_mode_type2) (
    when (dirty p.speak_to_chat_enabled) (
      send_commit {A = SystemParamSmartTalking} stc_enabled (record {
        type = SystemInquiredType.smart_talking_mode_type2;
        on_off = enable_if p.speak_to_chat_enabled.desired;
        preview_mode_on_off = EnableDisable.disable;
      })
      ∷ [])
    ++ when (dirty p.speak_to_chat_detect_sensitivity || dirty p.speak_to_mode_out_time) (
        send_commit {A = SystemExtParamSmartTalkingMode2} stc_ext (record {
          type = SystemInquiredType.smart_talking_mode_type2;
          detect_sensitivity = p.speak_to_chat_detect_sensitivity.desired;
          mode_off_time = p.speak_to_mode_out_time.desired;
        })
        ∷ []))

unfoldable pub touch_block : SupportFunctions → Block
unfolding contains_t1 send_commit
touch_block s = only λ p.
    when
      (contains_t1 s FunctionTable1.assignable_setting
        && (dirty p.touch_function_left || dirty p.touch_function_right))
      (send_commit {A = SystemParamAssignableSettings} touch_functions
          (record { presets = p.touch_function_left.desired ∷ p.touch_function_right.desired ∷ [] })
        ∷ [])

abbrev on_off_param : SystemInquiredType → Bool → SystemParamCommon
on_off_param type b = record { type = type; setting_value = enable_if b }

unfoldable pub head_gesture_block : SupportFunctions → Block
unfolding contains_t1 send_commit
head_gesture_block s = only λ p.
    when (contains_t1 s FunctionTable1.head_gesture_on_off_training && dirty p.head_gesture_enabled)
      (send_commit head_gesture
          (on_off_param SystemInquiredType.head_gesture_on_off p.head_gesture_enabled.desired)
        ∷ [])

unfoldable pub auto_power_off_block : SupportFunctions → Block
unfolding contains_t1 send_commit
auto_power_off_block s = only λ p. when (dirty p.auto_power_off) (
    send_commit {A = PowerParamAutoPowerOff} PropCommit.auto_power_off (record {
      type =
          if contains_t1 s FunctionTable1.auto_power_off
          then PowerInquiredType.auto_power_off
          else PowerInquiredType.auto_power_off_wearing_detection;
      current = to_u8 p.auto_power_off.desired;
      last_select = to_u8 AutoPowerOffElements.power_off_in5_min;
    })
    ∷ [])

unfoldable pub auto_pause_block : SupportFunctions → Block
unfolding contains_t1 send_commit
auto_pause_block s = only λ p.
    when
      (contains_t1 s FunctionTable1.playback_control_by_wearing_removing_headphone_on_off
        && dirty p.auto_pause_enabled)
      (send_commit PropCommit.auto_pause
          (on_off_param SystemInquiredType.playback_control_by_wearing p.auto_pause_enabled.desired)
        ∷ [])

unfoldable pub voice_block : SupportFunctions → Block
unfolding contains_t2 send_commit_t2
voice_block s = only λ p.
    when (dirty p.voice_guidance_enabled) (
      send_commit_t2 {A = VoiceGuidanceParamSettingMtk} PropCommit.voice_guidance_enabled (record {
        type = VoiceGuidanceInquiredType.mtk_transfer_wo_disconnection_support_language_switch;
        setting_value =
            if p.voice_guidance_enabled.desired then OnOffSetting.on else OnOffSetting.off;
      })
      ∷ [])
    ++ when
        (contains_t2 s
            FunctionTable2.voice_guidance_setting_mtk_transfer_without_disconnection_support_language_switch_and_volume_adjustment
          && dirty p.voice_guidance_volume)
        (send_commit_t2 {A = VoiceGuidanceSetParamVolume} PropCommit.voice_guidance_volume
            (record { volume = p.voice_guidance_volume.desired; feedback_sound = OnOffSetting.on })
          ∷ [])

abbrev gs_step :
    SupportFunctions → FunctionTable1 → PropCommit → GsInquiredType → Prop Bool → List (Option Step)
gs_step s f c type v = when (contains_t1 s f && dirty v) (
    send_commit {A = GsParamBoolean} c (record {
      type = type;
      setting_value = if v.desired then GsSettingValue.on else GsSettingValue.off;
    })
    ∷ [])

unfoldable pub gs_block : SupportFunctions → Block
unfolding contains_t1 send_commit
gs_block s = only λ p.
    let g = p.gs_param_bool in
    gs_step s FunctionTable1.general_setting1 gs1 GsInquiredType.general_setting1 g.at0
    ++ (gs_step s FunctionTable1.general_setting2 gs2 GsInquiredType.general_setting2 g.at1
        ++ (gs_step s FunctionTable1.general_setting3 gs3 GsInquiredType.general_setting3 g.at2
            ++ gs_step s FunctionTable1.general_setting4 gs4 GsInquiredType.general_setting4 g.at3))
