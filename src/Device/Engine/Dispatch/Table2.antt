-- ===== src/Device/Engine/Dispatch/Table2.antt =====
-- src/device/engine.rs, `handle_command_t2`.
use sony_buds_tray_control.Device.Engine.Defs.{Engine, Outcome, emit, quiet, voice_guidance}
use sony_buds_tray_control.Device.Engine.Dispatch.Common.{on_ok, put_props, type_byte}
use sony_buds_tray_control.Device.Engine.Dispatch.Multipoint.{on_device_list, on_peri_extended}
use sony_buds_tray_control.Device.Engine.Dispatch.Reports.{on_support_t2}
use sony_buds_tray_control.Device.State.{fresh}
use sony_buds_tray_control.Prelude.{
  List, [], bool_eq, eq, int_eq, list_eq, nat_eq, none, option_eq, some, ℕ, ◌∷◌,
}
use sony_buds_tray_control.Protocol.Enums.{
  CommandT2, OnOffSetting, VoiceGuidanceInquiredType, ambient_sound_mode_enum,
  audio_inquired_type_enum, auto_power_off_elements_enum, command_t1_enum, command_t2_enum,
  enable_disable_enum, enum_eq, from_u8, gs_setting_value_enum, nc_asm_inquired_type_enum,
  nc_asm_on_off_value_enum, on_off_setting_enum, peripheral_inquired_type_enum,
  play_inquired_type_enum, power_inquired_type_enum, source_switch_control_result_enum,
  system_inquired_type_enum, upscaling_type_auto_off_enum, voice_guidance_inquired_type_enum,
}
use sony_buds_tray_control.Protocol.Payloads.{
  VoiceGuidanceParamSettingMtk, VoiceGuidanceSetParamVolume, deserialize,
  voice_guidance_param_setting_mtk_payload, voice_guidance_set_param_volume_payload,
}

unfoldable pub on_voice_switch : List ℕ → Engine → Outcome
unfolding on_ok deserialize
on_voice_switch bytes e = on_ok e (deserialize {A = VoiceGuidanceParamSettingMtk} bytes) λ p.
    let q = e.props in
    emit
      (put_props e
        (record q { voice_guidance_enabled = fresh (eq p.setting_value OnOffSetting.on) }))
      voice_guidance

unfoldable pub on_voice_type : VoiceGuidanceInquiredType → List ℕ → Engine → Outcome
unfolding on_ok on_voice_switch deserialize
on_voice_type VoiceGuidanceInquiredType.mtk_transfer_wo_disconnection_support_language_switch bytes
      e =
    on_voice_switch bytes e
on_voice_type VoiceGuidanceInquiredType.only_on_off_setting bytes e = on_voice_switch bytes e
on_voice_type VoiceGuidanceInquiredType.volume bytes e =
    on_ok e (deserialize {A = VoiceGuidanceSetParamVolume} bytes) λ p.
      let q = e.props in
      emit (put_props e (record q { voice_guidance_volume = fresh p.volume })) voice_guidance
on_voice_type _ bytes e = quiet e

unfoldable pub on_voice_param : List ℕ → Engine → Outcome
unfolding on_voice_type
on_voice_param bytes e = elim (type_byte bytes) [
  | none ↦ quiet e
  | some type ↦ on_voice_type (from_u8 type) bytes e
]

unfoldable pub dispatch_t2 : ℕ → CommandT2 → List ℕ → Engine → Outcome
unfolding on_support_t2 on_voice_param on_device_list on_peri_extended
dispatch_t2 now CommandT2.connect_ret_support_function bytes e = on_support_t2 now bytes e
dispatch_t2 now CommandT2.voice_guidance_ret_param bytes e = on_voice_param bytes e
dispatch_t2 now CommandT2.voice_guidance_ntfy_param bytes e = on_voice_param bytes e
dispatch_t2 now CommandT2.peri_ret_param bytes e = on_device_list bytes e
dispatch_t2 now CommandT2.peri_ntfy_extended_param bytes e = on_peri_extended bytes e
dispatch_t2 now _ bytes e = quiet e

unfoldable pub handle_command_t2 : ℕ → List ℕ → Engine → Outcome
unfolding dispatch_t2
handle_command_t2 now [] e = quiet e
handle_command_t2 now (cmd ∷ rest) e = dispatch_t2 now (from_u8 cmd) (cmd ∷ rest) e
