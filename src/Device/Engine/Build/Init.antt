-- ===== src/Device/Engine/Build/Init.antt =====
-- src/device/engine.rs, `build_init_steps`: what is asked of a device that just connected.
use sony_buds_tray_control.Device.Engine.Build.Common.{
  command, command_t2, device_list_queries, sequence, when_support1, when_table2,
}
use sony_buds_tray_control.Device.Engine.Defs.{
  Step, ack, await, done, init_ok, nc_asm_query, protocol_info, send, support_function,
}
use sony_buds_tray_control.Device.State.{DeviceState}
use sony_buds_tray_control.Prelude.{List, Option, [], none, some, ◌++◌, ◌∷◌}
use sony_buds_tray_control.Protocol.Enums.{
  AudioInquiredType, CommonInquiredType, DataType, DeviceInfoType, DisplayLanguage, EnableDisable,
  FunctionTable1, GsInquiredType, NcAsmInquiredType, PlayInquiredType, PowerInquiredType,
  SystemInquiredType, VoiceGuidanceInquiredType, audio_inquired_type_enum,
  common_inquired_type_enum, data_type_enum, device_info_type_enum, display_language_enum,
  enable_disable_enum, function_table1_enum, gs_inquired_type_enum, nc_asm_inquired_type_enum,
  play_inquired_type_enum, power_inquired_type_enum, system_inquired_type_enum,
  voice_guidance_inquired_type_enum,
}
use sony_buds_tray_control.Protocol.Payloads.{
  AlertSetStatusFixedMessage, AudioGetCapability, AudioGetParam, AudioGetStatus, CommonGetStatus,
  ConnectGetDeviceInfo, GetPlayParam, GetPlayStatus, GsGetCapability, GsGetParam, NcAsmGetParam,
  PowerGetParam, SystemGetExtParam, SystemGetParam, VoiceGuidanceGetParam,
  alert_set_status_fixed_message_payload, audio_get_capability_payload, audio_get_param_payload,
  audio_get_status_payload, common_get_status_payload, connect_get_capability_info,
  connect_get_capability_info_payload, connect_get_device_info_payload, connect_get_protocol_info,
  connect_get_protocol_info_payload, connect_get_support_function,
  connect_get_support_function_payload, eq_ebb_get_param, eq_ebb_get_param_payload,
  eq_ebb_get_status, eq_ebb_get_status_payload, get_play_param_payload, get_play_status_payload,
  gs_get_capability_payload, gs_get_param_payload, log_set_status_payload, nc_asm_get_param_payload,
  power_get_param_payload, system_get_ext_param_payload, system_get_param_payload,
  t2_connect_get_support_function, t2_connect_get_support_function_payload,
  voice_guidance_get_param_payload,
}

abbrev device_info_query : DeviceInfoType → Option Step
device_info_query type = command {A = ConnectGetDeviceInfo} (record { device_info_type = type })

abbrev identify : List (Option Step)
identify =
    command connect_get_protocol_info
    ∷ some (await protocol_info)
    ∷ command connect_get_capability_info
    ∷ device_info_query DeviceInfoType.fw_version
    ∷ device_info_query DeviceInfoType.model_name
    ∷ device_info_query DeviceInfoType.series_and_color_info
    ∷ command connect_get_support_function
    ∷ some (await support_function)
    ∷ when_table2 (command_t2 t2_connect_get_support_function ∷ some (await support_function) ∷ [])
    ∷ []

abbrev general_setting_queries : FunctionTable1 → GsInquiredType → Option Step
general_setting_queries f type = when_support1 f (
    command {A = GsGetCapability}
      (record { type = type; display_language = DisplayLanguage.english })
    ∷ command {A = GsGetParam} (record { type = type })
    ∷ [])

abbrev general_settings : List (Option Step)
general_settings =
    general_setting_queries FunctionTable1.general_setting1 GsInquiredType.general_setting1
    ∷ general_setting_queries FunctionTable1.general_setting2 GsInquiredType.general_setting2
    ∷ general_setting_queries FunctionTable1.general_setting3 GsInquiredType.general_setting3
    ∷ general_setting_queries FunctionTable1.general_setting4 GsInquiredType.general_setting4
    ∷ []

abbrev system_query : SystemInquiredType → Option Step
system_query type = command {A = SystemGetParam} (record { type = type })

abbrev audio_query : AudioInquiredType → Option Step
audio_query type = command {A = AudioGetParam} (record { type = type })

abbrev power_query : PowerInquiredType → Option Step
power_query type = command {A = PowerGetParam} (record { type = type })

abbrev playback : List (Option Step)
playback =
    when_support1 FunctionTable1.upscaling_auto_off
      (command {A = AudioGetCapability} (record { type = AudioInquiredType.upscaling }) ∷ [])
    ∷ when_support1 FunctionTable1.fixed_message
        (command {A = AlertSetStatusFixedMessage} (record { status = EnableDisable.enable }) ∷ [])
    ∷ when_support1 FunctionTable1.codec_indicator
        (command {A = CommonGetStatus} (record { type = CommonInquiredType.audio_codec }) ∷ [])
    ∷ command {A = GetPlayParam}
        (record { type = PlayInquiredType.playback_control_with_call_volume_adjustment })
    ∷ command {A = GetPlayParam} (record { type = PlayInquiredType.music_volume })
    ∷ command {A = GetPlayStatus}
        (record { type = PlayInquiredType.playback_control_with_call_volume_adjustment })
    ∷ some nc_asm_query
    ∷ []

abbrev modes : List (Option Step)
modes =
    when_support1 FunctionTable1.smart_talking_mode_type2 (
      system_query SystemInquiredType.smart_talking_mode_type2
      ∷ command {A = SystemGetExtParam}
          (record { type = SystemInquiredType.smart_talking_mode_type2 })
      ∷ [])
    ∷ when_support1 FunctionTable1.listening_option (
        audio_query AudioInquiredType.bgm_mode_and_error_code
        ∷ audio_query AudioInquiredType.upmix_cinema
        ∷ [])
    ∷ command eq_ebb_get_status
    ∷ command eq_ebb_get_param
    ∷ when_support1 FunctionTable1.connection_mode_sound_quality_connection_quality
        (audio_query AudioInquiredType.connection_mode ∷ [])
    ∷ when_support1 FunctionTable1.upscaling_auto_off (
        command {A = AudioGetStatus} (record { type = AudioInquiredType.upscaling })
        ∷ audio_query AudioInquiredType.upscaling
        ∷ [])
    ∷ []

abbrev controls : List (Option Step)
controls =
    when_support1 FunctionTable1.assignable_setting
      (system_query SystemInquiredType.assignable_settings ∷ [])
    ∷ when_support1 FunctionTable1.ambient_sound_control_mode_select
        (command {A = NcAsmGetParam} (record { type = NcAsmInquiredType.nc_amb_toggle }) ∷ [])
    ∷ when_support1 FunctionTable1.head_gesture_on_off_training
        (system_query SystemInquiredType.head_gesture_on_off ∷ [])
    ∷ when_support1 FunctionTable1.auto_power_off
        (power_query PowerInquiredType.auto_power_off ∷ [])
    ∷ when_support1 FunctionTable1.auto_power_off_with_wearing_detection
        (power_query PowerInquiredType.auto_power_off_wearing_detection ∷ [])
    ∷ system_query SystemInquiredType.playback_control_by_wearing
    ∷ []

abbrev voice_query : VoiceGuidanceInquiredType → Option Step
voice_query type = command_t2 {A = VoiceGuidanceGetParam} (record { type = type })

abbrev finish : List (Option Step)
finish =
    when_table2 (
      voice_query VoiceGuidanceInquiredType.mtk_transfer_wo_disconnection_support_language_switch
      ∷ voice_query VoiceGuidanceInquiredType.volume
      ∷ [])
    ∷ some (send log_set_status_payload DataType.data_mdr ack none)
    ∷ some (done init_ok)
    ∷ []

-- The source passes the state, and does not use it.
unfoldable pub build_init_steps : DeviceState → Option (List Step)
unfolding sequence command command_t2 when_table2 when_support1 device_list_queries
    log_set_status_payload
build_init_steps _ = sequence (
    identify
    ++ (device_list_queries ++ (general_settings ++ (playback ++ (modes ++ (controls ++ finish))))))
