-- ===== src/Device/Engine/Dispatch/Table1.antt =====
-- src/device/engine.rs, `handle_command_t1`.
use sony_buds_tray_control.Device.Engine.Defs.{Engine, Outcome, quiet}
use sony_buds_tray_control.Device.Engine.Dispatch.Audio.{
  on_audio_capability, on_audio_param, on_audio_status, on_system_ext_param, on_system_param,
}
use sony_buds_tray_control.Device.Engine.Dispatch.Equalizer.{on_eq_param, on_eq_status}
use sony_buds_tray_control.Device.Engine.Dispatch.NcAsm.{on_nc_asm}
use sony_buds_tray_control.Device.Engine.Dispatch.Playback.{
  on_alert, on_gs_capability, on_gs_param, on_play_param, on_play_status,
}
use sony_buds_tray_control.Device.Engine.Dispatch.Reports.{
  on_battery, on_capability_info, on_codec, on_device_info, on_power_param, on_protocol_info,
  on_support_t1,
}
use sony_buds_tray_control.Prelude.{List, [], bool_eq, int_eq, list_eq, nat_eq, option_eq, ℕ, ◌∷◌}
use sony_buds_tray_control.Protocol.Enums.{
  CommandT1, ambient_sound_mode_enum, audio_inquired_type_enum, auto_power_off_elements_enum,
  command_t1_enum, command_t2_enum, enable_disable_enum, enum_eq, from_u8, gs_setting_value_enum,
  nc_asm_inquired_type_enum, nc_asm_on_off_value_enum, on_off_setting_enum,
  peripheral_inquired_type_enum, play_inquired_type_enum, power_inquired_type_enum,
  source_switch_control_result_enum, system_inquired_type_enum, upscaling_type_auto_off_enum,
  voice_guidance_inquired_type_enum,
}

unfoldable pub dispatch_t1 : ℕ → CommandT1 → List ℕ → Engine → Outcome
unfolding on_protocol_info on_capability_info on_device_info on_support_t1 on_codec on_battery
    on_power_param on_eq_status on_eq_param on_nc_asm on_play_status on_play_param on_gs_capability
    on_gs_param on_audio_capability on_audio_status on_audio_param on_system_param
    on_system_ext_param on_alert
dispatch_t1 now CommandT1.connect_ret_protocol_info bytes e = on_protocol_info now bytes e
dispatch_t1 now CommandT1.connect_ret_capability_info bytes e = on_capability_info bytes e
dispatch_t1 now CommandT1.connect_ret_device_info bytes e = on_device_info bytes e
dispatch_t1 now CommandT1.connect_ret_support_function bytes e = on_support_t1 now bytes e
dispatch_t1 now CommandT1.common_ret_status bytes e = on_codec bytes e
dispatch_t1 now CommandT1.common_ntfy_status bytes e = on_codec bytes e
dispatch_t1 now CommandT1.power_ret_status bytes e = on_battery bytes e
dispatch_t1 now CommandT1.power_ret_param bytes e = on_power_param bytes e
dispatch_t1 now CommandT1.power_ntfy_param bytes e = on_power_param bytes e
dispatch_t1 now CommandT1.eq_ebb_ret_status bytes e = on_eq_status bytes e
dispatch_t1 now CommandT1.eq_ebb_ntfy_status bytes e = on_eq_status bytes e
dispatch_t1 now CommandT1.eq_ebb_ret_param bytes e = on_eq_param bytes e
dispatch_t1 now CommandT1.eq_ebb_ntfy_param bytes e = on_eq_param bytes e
dispatch_t1 now CommandT1.nc_asm_ret_param bytes e = on_nc_asm bytes e
dispatch_t1 now CommandT1.nc_asm_ntfy_param bytes e = on_nc_asm bytes e
dispatch_t1 now CommandT1.play_ret_status bytes e = on_play_status bytes e
dispatch_t1 now CommandT1.play_ntfy_status bytes e = on_play_status bytes e
dispatch_t1 now CommandT1.play_ret_param bytes e = on_play_param bytes e
dispatch_t1 now CommandT1.play_ntfy_param bytes e = on_play_param bytes e
dispatch_t1 now CommandT1.general_setting_ret_capability bytes e = on_gs_capability bytes e
dispatch_t1 now CommandT1.general_setting_ret_param bytes e = on_gs_param bytes e
dispatch_t1 now CommandT1.general_setting_ntfy_param bytes e = on_gs_param bytes e
dispatch_t1 now CommandT1.audio_ret_capability bytes e = on_audio_capability bytes e
dispatch_t1 now CommandT1.audio_ret_status bytes e = on_audio_status bytes e
dispatch_t1 now CommandT1.audio_ntfy_status bytes e = on_audio_status bytes e
dispatch_t1 now CommandT1.audio_ret_param bytes e = on_audio_param bytes e
dispatch_t1 now CommandT1.audio_ntfy_param bytes e = on_audio_param bytes e
dispatch_t1 now CommandT1.system_ret_param bytes e = on_system_param bytes e
dispatch_t1 now CommandT1.system_ntfy_param bytes e = on_system_param bytes e
dispatch_t1 now CommandT1.system_ret_ext_param bytes e = on_system_ext_param bytes e
dispatch_t1 now CommandT1.system_ntfy_ext_param bytes e = on_system_ext_param bytes e
dispatch_t1 now CommandT1.alert_ntfy_param bytes e = on_alert bytes e
dispatch_t1 now _ bytes e = quiet e

unfoldable pub handle_command_t1 : ℕ → List ℕ → Engine → Outcome
unfolding dispatch_t1
handle_command_t1 now [] e = quiet e
handle_command_t1 now (cmd ∷ rest) e = dispatch_t1 now (from_u8 cmd) (cmd ∷ rest) e
