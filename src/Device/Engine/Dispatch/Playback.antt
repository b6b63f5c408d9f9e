-- ===== src/Device/Engine/Dispatch/Playback.antt =====
-- src/device/engine.rs, `handle_command_t1`: the playback, general setting and alert messages.
use sony_buds_tray_control.Device.Engine.Defs.{
  Engine, Outcome, alert, emit, general_setting, playback_metadata, playback_status, quiet, volume,
}
use sony_buds_tray_control.Device.Engine.Dispatch.Common.{on_ok, put_props, put_state, type_byte}
use sony_buds_tray_control.Device.Properties.{Four}
use sony_buds_tray_control.Device.State.{DeviceState, GsCapability, Prop, fresh}
use sony_buds_tray_control.Prelude.{
  Bool, List, [], bool_eq, eq, int_eq, list_eq, nat_eq, none, option_eq, some, ℕ, ◌++◌, ◌∷◌,
}
use sony_buds_tray_control.Protocol.Enums.{
  GsInquiredType, GsSettingValue, PlayInquiredType, ambient_sound_mode_enum,
  audio_inquired_type_enum, auto_power_off_elements_enum, command_t1_enum, command_t2_enum,
  enable_disable_enum, enum_eq, from_u8, gs_inquired_type_enum, gs_setting_value_enum,
  nc_asm_inquired_type_enum, nc_asm_on_off_value_enum, on_off_setting_enum,
  peripheral_inquired_type_enum, play_inquired_type_enum, power_inquired_type_enum,
  source_switch_control_result_enum, system_inquired_type_enum, upscaling_type_auto_off_enum,
  voice_guidance_inquired_type_enum,
}
use sony_buds_tray_control.Protocol.Payloads.{
  AlertNotifyParamFixedMessage, GsParamBoolean, GsRetCapability, PlayParamPlaybackControllerName,
  PlayParamPlaybackControllerVolume, PlayStatusPlaybackController, PlaybackName,
  alert_notify_param_fixed_message_payload, deserialize, gs_param_boolean_payload,
  gs_ret_capability_payload, play_param_playback_controller_name_payload,
  play_param_playback_controller_volume_payload, play_status_playback_controller_payload,
}

unfoldable pub on_play_status : List ℕ → Engine → Outcome
unfolding on_ok deserialize
on_play_status bytes e = on_ok e (deserialize {A = PlayStatusPlaybackController} bytes) λ p.
    let s = e.state in
    emit (put_state e (record s { play_status = p.playback_status })) playback_status

abbrev adopt_names : List PlaybackName → DeviceState → DeviceState
adopt_names (title ∷ album ∷ artist ∷ _) s = record s {
  play_title = title.name;
  play_album = album.name;
  play_artist = artist.name;
}
adopt_names _ s = s

unfoldable pub on_play_names : List ℕ → Engine → Outcome
unfolding on_ok deserialize
on_play_names bytes e =
    on_ok e (deserialize {A = PlayParamPlaybackControllerName} bytes)
      λ p. emit (put_state e (adopt_names p.names e.state)) playback_metadata

unfoldable pub on_play_volume : List ℕ → Engine → Outcome
unfolding on_ok deserialize
on_play_volume bytes e = on_ok e (deserialize {A = PlayParamPlaybackControllerVolume} bytes) λ p.
    let s = e.state in
    let q = e.props in
    emit
      (record e {
        state = record s { play_volume = p.volume };
        props = record q { play_volume = fresh p.volume };
      })
      volume

unfoldable pub on_play_type : PlayInquiredType → List ℕ → Engine → Outcome
unfolding on_play_names on_play_volume
on_play_type PlayInquiredType.playback_control_with_call_volume_adjustment bytes e =
    on_play_names bytes e
on_play_type PlayInquiredType.playback_control_with_call_volume_adjustment_and_function_change bytes
      e =
    on_play_names bytes e
on_play_type PlayInquiredType.playback_control_with_function_change bytes e = on_play_names bytes e
on_play_type PlayInquiredType.music_volume bytes e = on_play_volume bytes e
on_play_type PlayInquiredType.music_volume_with_mute bytes e = on_play_volume bytes e
on_play_type PlayInquiredType.call_volume bytes e = on_play_volume bytes e
on_play_type PlayInquiredType.call_volume_with_mute bytes e = on_play_volume bytes e
on_play_type _ bytes e = quiet e

unfoldable pub on_play_param : List ℕ → Engine → Outcome
unfolding on_play_type
on_play_param bytes e = elim (type_byte bytes) [
  | none ↦ quiet e
  | some type ↦ on_play_type (from_u8 type) bytes e
]

unfoldable pub on_gs_capability : List ℕ → Engine → Outcome
unfolding on_ok deserialize
on_gs_capability bytes e = on_ok e (deserialize {A = GsRetCapability} bytes) λ c.
    let s = e.state in
    let capability : GsCapability = record {
      setting_type = c.setting_type;
      subject = c.subject;
      summary = c.summary;
    } in
    emit (put_state e (record s { gs_capabilities = s.gs_capabilities ++ capability ∷ [] }))
      general_setting

-- `gs_param_bool[idx].overwrite(v)`, with the index that the type gives.
unfoldable pub overwrite_gs : GsInquiredType → Bool → Four (Prop Bool) → Four (Prop Bool)
overwrite_gs GsInquiredType.general_setting1 v g = record g { at0 = fresh v }
overwrite_gs GsInquiredType.general_setting2 v g = record g { at1 = fresh v }
overwrite_gs GsInquiredType.general_setting3 v g = record g { at2 = fresh v }
overwrite_gs _ v g = record g { at3 = fresh v }

unfoldable pub on_gs_param : List ℕ → Engine → Outcome
unfolding on_ok overwrite_gs deserialize
on_gs_param bytes e = on_ok e (deserialize {A = GsParamBoolean} bytes) λ p.
    let q = e.props in
    emit
      (put_props e (record q {
        gs_param_bool = overwrite_gs p.type (eq p.setting_value GsSettingValue.on) q.gs_param_bool;
      }))
      general_setting

unfoldable pub on_alert : List ℕ → Engine → Outcome
unfolding on_ok deserialize
on_alert bytes e =
    on_ok e (deserialize {A = AlertNotifyParamFixedMessage} bytes)
      λ p. emit e (alert p.message_type)
