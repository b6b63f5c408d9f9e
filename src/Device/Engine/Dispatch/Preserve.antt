-- ===== src/Device/Engine/Dispatch/Preserve.antt =====
-- src/device/engine.rs: the messages of both tables, with the facts about an engine that they preserve.
use sony_buds_tray_control.Device.Engine.Defs.{Engine, Outcome, protocol_info, support_function}
use sony_buds_tray_control.Device.Engine.Dispatch.Audio.{
  on_audio_capability, on_audio_param, on_audio_status, on_system_ext_param, on_system_param,
}
use sony_buds_tray_control.Device.Engine.Dispatch.Common.{on_ok}
use sony_buds_tray_control.Device.Engine.Dispatch.Equalizer.{on_eq_param, on_eq_status}
use sony_buds_tray_control.Device.Engine.Dispatch.Keeps.{
  on_alert-Keeps, on_audio_capability-Keeps, on_audio_param-Keeps, on_audio_status-Keeps,
  on_battery-Keeps, on_capability_info-Keeps, on_codec-Keeps, on_device_info-Keeps,
  on_device_list-Keeps, on_eq_param-Keeps, on_eq_status-Keeps, on_gs_capability-Keeps,
  on_gs_param-Keeps, on_nc_asm-Keeps, on_peri_extended-Keeps, on_play_param-Keeps,
  on_play_status-Keeps, on_power_param-Keeps, on_system_ext_param-Keeps, on_system_param-Keeps,
  on_voice_param-Keeps,
}
use sony_buds_tray_control.Device.Engine.Dispatch.Multipoint.{on_device_list, on_peri_extended}
use sony_buds_tray_control.Device.Engine.Dispatch.NcAsm.{on_nc_asm}
use sony_buds_tray_control.Device.Engine.Dispatch.Playback.{
  on_alert, on_gs_capability, on_gs_param, on_play_param, on_play_status,
}
use sony_buds_tray_control.Device.Engine.Dispatch.Reports.{
  on_battery, on_capability_info, on_codec, on_device_info, on_power_param, on_protocol_info,
  on_support_t1, on_support_t2,
}
use sony_buds_tray_control.Device.Engine.Dispatch.Table1.{dispatch_t1, handle_command_t1}
use sony_buds_tray_control.Device.Engine.Dispatch.Table2.{
  dispatch_t2, handle_command_t2, on_voice_param,
}
use sony_buds_tray_control.Device.Engine.Stable.{Stable}
use sony_buds_tray_control.Prelude.{
  List, [], bool_eq, err, int_eq, list_eq, nat_eq, ok, option_eq, ℕ, ◌∷◌,
}
use sony_buds_tray_control.Protocol.Codec.Error.{SerResult}
use sony_buds_tray_control.Protocol.Enums.{
  CommandT1, CommandT2, command_t1_enum, command_t2_enum, enum_eq, from_u8,
}

module _ {Good : Engine → Type 0} (stable : Stable Good) where
  on_ok-Good :
      {P : Type 0} (e : Engine) (r : SerResult P) (handle : P → Outcome)
      → Good e
      → ((p : P) → Good ((handle p).0))
      → Good ((on_ok e r handle).0)
  unfolding on_ok
  on_ok-Good e (ok p) handle good h = h p
  on_ok-Good e (err why) handle good h = good

  on_protocol_info-Good :
      (now : ℕ) (bytes : List ℕ) (e : Engine) → Good e → Good ((on_protocol_info now bytes e).0)
  unfolding on_protocol_info
  on_protocol_info-Good now bytes e good =
      on_ok-Good e _ _ good (λ p. stable.advanced now protocol_info _ (stable.put_state e _ good))

  on_support_t1-Good :
      (now : ℕ) (bytes : List ℕ) (e : Engine) → Good e → Good ((on_support_t1 now bytes e).0)
  unfolding on_support_t1
  on_support_t1-Good now bytes e good =
      on_ok-Good e _ _ good
        (λ p. stable.advanced now support_function _ (stable.put_state e _ good))

  on_support_t2-Good :
      (now : ℕ) (bytes : List ℕ) (e : Engine) → Good e → Good ((on_support_t2 now bytes e).0)
  unfolding on_support_t2
  on_support_t2-Good now bytes e good =
      on_ok-Good e _ _ good
        (λ p. stable.advanced now support_function _ (stable.put_state e _ good))

  dispatch_t1-Good :
      (now : ℕ) (cmd : CommandT1) (bytes : List ℕ) (e : Engine)
      → Good e
      → Good ((dispatch_t1 now cmd bytes e).0)
  unfolding dispatch_t1
  dispatch_t1-Good now CommandT1.connect_ret_protocol_info bytes e good =
      on_protocol_info-Good now bytes e good
  dispatch_t1-Good now CommandT1.connect_ret_capability_info bytes e good =
      stable.kept e (on_capability_info bytes e) (on_capability_info-Keeps bytes e) good
  dispatch_t1-Good now CommandT1.connect_ret_device_info bytes e good =
      stable.kept e (on_device_info bytes e) (on_device_info-Keeps bytes e) good
  dispatch_t1-Good now CommandT1.connect_ret_support_function bytes e good =
      on_support_t1-Good now bytes e good
  dispatch_t1-Good now CommandT1.common_ret_status bytes e good =
      stable.kept e (on_codec bytes e) (on_codec-Keeps bytes e) good
  dispatch_t1-Good now CommandT1.common_ntfy_status bytes e good =
      stable.kept e (on_codec bytes e) (on_codec-Keeps bytes e) good
  dispatch_t1-Good now CommandT1.power_ret_status bytes e good =
      stable.kept e (on_battery bytes e) (on_battery-Keeps bytes e) good
  dispatch_t1-Good now CommandT1.power_ret_param bytes e good =
      stable.kept e (on_power_param bytes e) (on_power_param-Keeps bytes e) good
  dispatch_t1-Good now CommandT1.power_ntfy_param bytes e good =
      stable.kept e (on_power_param bytes e) (on_power_param-Keeps bytes e) good
  dispatch_t1-Good now CommandT1.eq_ebb_ret_status bytes e good =
      stable.kept e (on_eq_status bytes e) (on_eq_status-Keeps bytes e) good
  dispatch_t1-Good now CommandT1.eq_ebb_ntfy_status bytes e good =
      stable.kept e (on_eq_status bytes e) (on_eq_status-Keeps bytes e) good
  dispatch_t1-Good now CommandT1.eq_ebb_ret_param bytes e good =
      stable.kept e (on_eq_param bytes e) (on_eq_param-Keeps bytes e) good
  dispatch_t1-Good now CommandT1.eq_ebb_ntfy_param bytes e good =
      stable.kept e (on_eq_param bytes e) (on_eq_param-Keeps bytes e) good
  dispatch_t1-Good now CommandT1.nc_asm_ret_param bytes e good =
      stable.kept e (on_nc_asm bytes e) (on_nc_asm-Keeps bytes e) good
  dispatch_t1-Good now CommandT1.nc_asm_ntfy_param bytes e good =
      stable.kept e (on_nc_asm bytes e) (on_nc_asm-Keeps bytes e) good
  dispatch_t1-Good now CommandT1.play_ret_status bytes e good =
      stable.kept e (on_play_status bytes e) (on_play_status-Keeps bytes e) good
  dispatch_t1-Good now CommandT1.play_ntfy_status bytes e good =
      stable.kept e (on_play_status bytes e) (on_play_status-Keeps bytes e) good
  dispatch_t1-Good now CommandT1.play_ret_param bytes e good =
      stable.kept e (on_play_param bytes e) (on_play_param-Keeps bytes e) good
  dispatch_t1-Good now CommandT1.play_ntfy_param bytes e good =
      stable.kept e (on_play_param bytes e) (on_play_param-Keeps bytes e) good
  dispatch_t1-Good now CommandT1.general_setting_ret_capability bytes e good =
      stable.kept e (on_gs_capability bytes e) (on_gs_capability-Keeps bytes e) good
  dispatch_t1-Good now CommandT1.general_setting_ret_param bytes e good =
      stable.kept e (on_gs_param bytes e) (on_gs_param-Keeps bytes e) good
  dispatch_t1-Good now CommandT1.general_setting_ntfy_param bytes e good =
      stable.kept e (on_gs_param bytes e) (on_gs_param-Keeps bytes e) good
  dispatch_t1-Good now CommandT1.audio_ret_capability bytes e good =
      stable.kept e (on_audio_capability bytes e) (on_audio_capability-Keeps bytes e) good
  dispatch_t1-Good now CommandT1.audio_ret_status bytes e good =
      stable.kept e (on_audio_status bytes e) (on_audio_status-Keeps bytes e) good
  dispatch_t1-Good now CommandT1.audio_ntfy_status bytes e good =
      stable.kept e (on_audio_status bytes e) (on_audio_status-Keeps bytes e) good
  dispatch_t1-Good now CommandT1.audio_ret_param bytes e good =
      stable.kept e (on_audio_param bytes e) (on_audio_param-Keeps bytes e) good
  dispatch_t1-Good now CommandT1.audio_ntfy_param bytes e good =
      stable.kept e (on_audio_param bytes e) (on_audio_param-Keeps bytes e) good
  dispatch_t1-Good now CommandT1.system_ret_param bytes e good =
      stable.kept e (on_system_param bytes e) (on_system_param-Keeps bytes e) good
  dispatch_t1-Good now CommandT1.system_ntfy_param bytes e good =
      stable.kept e (on_system_param bytes e) (on_system_param-Keeps bytes e) good
  dispatch_t1-Good now CommandT1.system_ret_ext_param bytes e good =
      stable.kept e (on_system_ext_param bytes e) (on_system_ext_param-Keeps bytes e) good
  dispatch_t1-Good now CommandT1.system_ntfy_ext_param bytes e good =
      stable.kept e (on_system_ext_param bytes e) (on_system_ext_param-Keeps bytes e) good
  dispatch_t1-Good now CommandT1.alert_ntfy_param bytes e good =
      stable.kept e (on_alert bytes e) (on_alert-Keeps bytes e) good
  dispatch_t1-Good now _ bytes e good = good

  pub handle_command_t1-Good :
      (now : ℕ) (bytes : List ℕ) (e : Engine) → Good e → Good ((handle_command_t1 now bytes e).0)
  unfolding handle_command_t1
  handle_command_t1-Good now [] e good = good
  handle_command_t1-Good now (cmd ∷ rest) e good =
      dispatch_t1-Good now (from_u8 cmd) (cmd ∷ rest) e good

  dispatch_t2-Good :
      (now : ℕ) (cmd : CommandT2) (bytes : List ℕ) (e : Engine)
      → Good e
      → Good ((dispatch_t2 now cmd bytes e).0)
  unfolding dispatch_t2
  dispatch_t2-Good now CommandT2.connect_ret_support_function bytes e good =
      on_support_t2-Good now bytes e good
  dispatch_t2-Good now CommandT2.voice_guidance_ret_param bytes e good =
      stable.kept e (on_voice_param bytes e) (on_voice_param-Keeps bytes e) good
  dispatch_t2-Good now CommandT2.voice_guidance_ntfy_param bytes e good =
      stable.kept e (on_voice_param bytes e) (on_voice_param-Keeps bytes e) good
  dispatch_t2-Good now CommandT2.peri_ret_param bytes e good =
      stable.kept e (on_device_list bytes e) (on_device_list-Keeps bytes e) good
  dispatch_t2-Good now CommandT2.peri_ntfy_extended_param bytes e good =
      stable.kept e (on_peri_extended bytes e) (on_peri_extended-Keeps bytes e) good
  dispatch_t2-Good now _ bytes e good = good

  pub handle_command_t2-Good :
      (now : ℕ) (bytes : List ℕ) (e : Engine) → Good e → Good ((handle_command_t2 now bytes e).0)
  unfolding handle_command_t2
  handle_command_t2-Good now [] e good = good
  handle_command_t2-Good now (cmd ∷ rest) e good =
      dispatch_t2-Good now (from_u8 cmd) (cmd ∷ rest) e good
