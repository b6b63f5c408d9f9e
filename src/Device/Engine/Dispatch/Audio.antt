-- ===== src/Device/Engine/Dispatch/Audio.antt =====
-- src/device/engine.rs, `handle_command_t1`: the audio and system messages.
use sony_buds_tray_control.Device.Engine.Defs.{
  Engine, Outcome, auto_pause, codec, emit, listening_mode, quiet, speak_to_chat, touch_functions,
  upscaling,
}
use sony_buds_tray_control.Device.Engine.Dispatch.Common.{on_ok, put_props, put_state, type_byte}
use sony_buds_tray_control.Device.Properties.{Properties}
use sony_buds_tray_control.Device.State.{fresh}
use sony_buds_tray_control.Prelude.{
  List, bool_eq, eq, if◌then◌else◌, int_eq, list_eq, nat_eq, none, option_eq, some, true, ℕ, ◌∷◌,
}
use sony_buds_tray_control.Protocol.Enums.{
  AudioInquiredType, EnableDisable, Preset, SystemInquiredType, UpscalingTypeAutoOff,
  ambient_sound_mode_enum, audio_inquired_type_enum, auto_power_off_elements_enum, command_t1_enum,
  command_t2_enum, enable_disable_enum, enum_eq, from_u8, gs_setting_value_enum,
  nc_asm_inquired_type_enum, nc_asm_on_off_value_enum, on_off_setting_enum,
  peripheral_inquired_type_enum, play_inquired_type_enum, power_inquired_type_enum, preset_enum,
  source_switch_control_result_enum, system_inquired_type_enum, upscaling_type_auto_off_enum,
  voice_guidance_inquired_type_enum,
}
use sony_buds_tray_control.Protocol.Payloads.{
  AudioParamBgmMode, AudioParamConnection, AudioParamUpmixCinema, AudioParamUpscaling,
  AudioRetCapabilityUpscaling, AudioStatusCommon, SystemExtParamSmartTalkingMode2,
  SystemParamAssignableSettings, SystemParamCommon, SystemParamSmartTalking,
  audio_param_bgm_mode_payload, audio_param_connection_payload, audio_param_upmix_cinema_payload,
  audio_param_upscaling_payload, audio_ret_capability_upscaling_payload,
  audio_status_common_payload, deserialize, system_ext_param_smart_talking_mode2_payload,
  system_param_assignable_settings_payload, system_param_common_payload,
  system_param_smart_talking_payload,
}

unfoldable pub on_audio_capability : List ℕ → Engine → Outcome
unfolding on_ok deserialize
on_audio_capability bytes e = on_ok e (deserialize {A = AudioRetCapabilityUpscaling} bytes) λ p.
    let s = e.state in
    emit (put_state e (record s { upscaling_type = p.upscaling_type; upscaling_available = true }))
      upscaling

unfoldable pub on_audio_status : List ℕ → Engine → Outcome
unfolding on_ok deserialize
on_audio_status bytes e = on_ok e (deserialize {A = AudioStatusCommon} bytes) λ p.
    let q = e.props in
    if eq p.type AudioInquiredType.upscaling
    then emit
        (put_props e (record q { upscaling_enabled = fresh (eq p.status EnableDisable.enable) }))
        upscaling
    else quiet e

unfoldable pub on_bgm_mode : List ℕ → Engine → Outcome
unfolding on_ok deserialize
on_bgm_mode bytes e = on_ok e (deserialize {A = AudioParamBgmMode} bytes) λ p.
    let q = e.props in
    emit
      (put_props e (record q {
        bgm_mode_enabled = fresh (eq p.on_off EnableDisable.enable);
        bgm_mode_room_size = fresh p.target_room_size;
      }))
      listening_mode

unfoldable pub on_audio_type : AudioInquiredType → List ℕ → Engine → Outcome
unfolding on_ok on_bgm_mode deserialize
on_audio_type AudioInquiredType.upscaling bytes e =
    on_ok e (deserialize {A = AudioParamUpscaling} bytes) λ p.
      let q = e.props in
      emit
        (put_props e
          (record q { upscaling_enabled = fresh (eq p.setting_value UpscalingTypeAutoOff.auto) }))
        upscaling
on_audio_type AudioInquiredType.connection_mode bytes e =
    on_ok e (deserialize {A = AudioParamConnection} bytes) λ _. emit e codec
on_audio_type AudioInquiredType.bgm_mode bytes e = on_bgm_mode bytes e
on_audio_type AudioInquiredType.bgm_mode_and_error_code bytes e = on_bgm_mode bytes e
on_audio_type AudioInquiredType.upmix_cinema bytes e =
    on_ok e (deserialize {A = AudioParamUpmixCinema} bytes) λ p.
      let q = e.props in
      emit
        (put_props e (record q { upmix_cinema_enabled = fresh (eq p.on_off EnableDisable.enable) }))
        listening_mode
on_audio_type _ bytes e = quiet e

unfoldable pub on_audio_param : List ℕ → Engine → Outcome
unfolding on_audio_type
on_audio_param bytes e = elim (type_byte bytes) [
  | none ↦ quiet e
  | some type ↦ on_audio_type (from_u8 type) bytes e
]

abbrev adopt_presets : List Preset → Properties → Properties
adopt_presets (left ∷ right ∷ _) q = record q {
  touch_function_left = fresh left;
  touch_function_right = fresh right;
}
adopt_presets _ q = q

unfoldable pub on_system_type : SystemInquiredType → List ℕ → Engine → Outcome
unfolding on_ok deserialize
on_system_type SystemInquiredType.smart_talking_mode_type2 bytes e =
    on_ok e (deserialize {A = SystemParamSmartTalking} bytes) λ p.
      let q = e.props in
      emit
        (put_props e
          (record q { speak_to_chat_enabled = fresh (eq p.on_off EnableDisable.enable) }))
        speak_to_chat
on_system_type SystemInquiredType.assignable_settings bytes e =
    on_ok e (deserialize {A = SystemParamAssignableSettings} bytes)
      λ p. emit (put_props e (adopt_presets p.presets e.props)) touch_functions
on_system_type SystemInquiredType.playback_control_by_wearing bytes e =
    on_ok e (deserialize {A = SystemParamCommon} bytes) λ p.
      let q = e.props in
      emit
        (put_props e
          (record q { auto_pause_enabled = fresh (eq p.setting_value EnableDisable.enable) }))
        auto_pause
on_system_type SystemInquiredType.head_gesture_on_off bytes e =
    on_ok e (deserialize {A = SystemParamCommon} bytes) λ p.
      let q = e.props in
      emit
        (put_props e
          (record q { head_gesture_enabled = fresh (eq p.setting_value EnableDisable.enable) }))
        auto_pause
on_system_type _ bytes e = quiet e

unfoldable pub on_system_param : List ℕ → Engine → Outcome
unfolding on_system_type
on_system_param bytes e = elim (type_byte bytes) [
  | none ↦ quiet e
  | some type ↦ on_system_type (from_u8 type) bytes e
]

unfoldable pub on_system_ext_param : List ℕ → Engine → Outcome
unfolding on_ok deserialize
on_system_ext_param bytes e = on_ok e (deserialize {A = SystemExtParamSmartTalkingMode2} bytes) λ p.
    let q = e.props in
    emit
      (put_props e (record q {
        speak_to_chat_detect_sensitivity = fresh p.detect_sensitivity;
        speak_to_mode_out_time = fresh p.mode_off_time;
      }))
      speak_to_chat
