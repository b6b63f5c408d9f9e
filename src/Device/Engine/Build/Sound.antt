-- ===== src/Device/Engine/Build/Sound.antt =====
-- src/device/engine.rs, `build_commit_steps`: the blocks about sound, in the order of the source.
use sony_buds_tray_control.Device.Engine.Build.Block.{
  Block, enable_if, on_if, only, send_commit, when,
}
use sony_buds_tray_control.Device.Engine.Build.Common.{command}
use sony_buds_tray_control.Device.Engine.Defs.{
  PropCommit, Step, bgm_mode, eq_preset, nc_asm_button, nc_asm_group, upmix_cinema,
}
use sony_buds_tray_control.Device.Properties.{Properties}
use sony_buds_tray_control.Device.State.{
  SupportFunctions, commit, contains_t1, dirty, overwrite, request_eq,
}
use sony_buds_tray_control.Prelude.{
  Bool, List, Option, [], add_i8, as_u8, bool_eq, false, if◌then◌else◌, int_eq, length, list_eq,
  map, nat_eq, option_eq, pos, ℕ, ℤ, ◌&&◌, ◌++◌, ◌==◌, ◌||◌, ◌∷◌,
}
use sony_buds_tray_control.Protocol.Enums.{
  AmbientSoundMode, AudioInquiredType, EnableDisable, FunctionTable1, NcAsmInquiredType,
  PlayInquiredType, PlaybackControl, UpscalingTypeAutoOff, ValueChangeStatus,
  ambient_sound_mode_enum, audio_inquired_type_enum, auto_power_off_elements_enum,
  detect_sensitivity_enum, enable_disable_enum, enum_eq, eq_preset_id_enum, function_enum,
  function_table1_enum, mode_out_time_enum, nc_asm_inquired_type_enum, nc_asm_mode_enum,
  noise_adaptive_sensitivity_enum, play_inquired_type_enum, playback_control_enum, preset_enum,
  room_size_enum, upscaling_type_auto_off_enum, value_change_status_enum,
}
use sony_buds_tray_control.Protocol.Payloads.{
  AudioParamBgmMode, AudioParamUpmixCinema, AudioParamUpscaling, EqEbbParamEq,
  NcAsmParamAsmSeamless, NcAsmParamBase, NcAsmParamModeNcDualModeSwitchAsmSeamless,
  NcAsmParamModeNcDualModeSwitchAsmSeamlessNa, NcAsmParamNcAmbToggle,
  PlayParamPlaybackControllerVolume, PlayStatusSetPlaybackController, audio_param_bgm_mode_payload,
  audio_param_upmix_cinema_payload, audio_param_upscaling_payload, eq_ebb_get_param,
  eq_ebb_get_param_payload, eq_ebb_param_eq_payload, nc_asm_param_asm_seamless_payload,
  nc_asm_param_mode_nc_dual_mode_switch_asm_seamless_na_payload,
  nc_asm_param_mode_nc_dual_mode_switch_asm_seamless_payload, nc_asm_param_nc_amb_toggle_payload,
  play_param_playback_controller_volume_payload, play_status_set_playback_controller_payload,
  power_set_status_power_off, power_set_status_power_off_payload,
}

unfoldable pub shutdown_block : SupportFunctions → Block
unfolding contains_t1 send_commit
shutdown_block s p =
    if dirty p.shutdown
    then (if contains_t1 s FunctionTable1.power_off && p.shutdown.desired
        then (send_commit PropCommit.shutdown power_set_status_power_off ∷ [], p)
        else ([], record p { shutdown = overwrite p.shutdown false }))
    else ([], p)

abbrev nc_asm_dirty : Properties → Bool
nc_asm_dirty p =
    dirty p.nc_asm_enabled
    || dirty p.nc_asm_mode
    || dirty p.nc_asm_ambient_level
    || dirty p.nc_asm_focus_on_voice
    || dirty p.nc_asm_auto_asm_enabled
    || dirty p.nc_asm_noise_adaptive_sensitivity

abbrev nc_asm_base : NcAsmInquiredType → Properties → NcAsmParamBase
nc_asm_base type p = record {
  type = type;
  value_change_status = ValueChangeStatus.changed;
  nc_asm_total_effect = on_if p.nc_asm_enabled.desired;
}

abbrev ambient_mode : Properties → AmbientSoundMode
ambient_mode p =
    if p.nc_asm_focus_on_voice.desired then AmbientSoundMode.voice else AmbientSoundMode.normal

abbrev adaptive : Properties → NcAsmParamModeNcDualModeSwitchAsmSeamlessNa
adaptive p = record {
  base = nc_asm_base NcAsmInquiredType.mode_nc_asm_dual_nc_mode_switch_and_asm_seamless_na p;
  nc_asm_mode = p.nc_asm_mode.desired;
  ambient_sound_mode = ambient_mode p;
  ambient_sound_level = p.nc_asm_ambient_level.desired;
  noise_adaptive_on_off = on_if p.nc_asm_auto_asm_enabled.desired;
  noise_adaptive_sensitivity = p.nc_asm_noise_adaptive_sensitivity.desired;
}

abbrev seamless : Properties → NcAsmParamAsmSeamless
seamless p = record {
  base = nc_asm_base NcAsmInquiredType.asm_seamless p;
  ambient_sound_mode = ambient_mode p;
  ambient_sound_level = p.nc_asm_ambient_level.desired;
}

abbrev dual : Properties → NcAsmParamModeNcDualModeSwitchAsmSeamless
dual p = record {
  base = nc_asm_base NcAsmInquiredType.mode_nc_asm_dual_nc_mode_switch_and_asm_seamless p;
  nc_asm_mode = p.nc_asm_mode.desired;
  ambient_sound_mode = ambient_mode p;
  ambient_sound_level = p.nc_asm_ambient_level.desired;
}

unfoldable pub nc_asm_steps : SupportFunctions → Properties → Option Step
unfolding contains_t1 send_commit
nc_asm_steps s p =
    if contains_t1 s
      FunctionTable1.mode_nc_asm_noise_cancelling_dual_ambient_sound_mode_level_adjustment_noise_adaptation
    then send_commit nc_asm_group (adaptive p)
    else if contains_t1 s FunctionTable1.ambient_sound_mode_level_adjustment
    then send_commit nc_asm_group (seamless p)
    else send_commit nc_asm_group (dual p)

unfoldable pub nc_asm_block : SupportFunctions → Block
unfolding nc_asm_steps
nc_asm_block s = only λ p. when (nc_asm_dirty p) (nc_asm_steps s p ∷ [])

unfoldable pub button_block : SupportFunctions → Block
unfolding contains_t1 send_commit
button_block s = only λ p.
    when
      (contains_t1 s FunctionTable1.ambient_sound_control_mode_select
        && dirty p.nc_asm_button_function)
      (send_commit {A = NcAsmParamNcAmbToggle} nc_asm_button (record {
        type = NcAsmInquiredType.nc_amb_toggle;
        function = p.nc_asm_button_function.desired;
      })
        ∷ [])

unfoldable pub volume_block : Block
unfolding send_commit
volume_block = only λ p. when (dirty p.play_volume) (
    send_commit {A = PlayParamPlaybackControllerVolume} PropCommit.play_volume
      (record { type = PlayInquiredType.music_volume; volume = p.play_volume.desired })
    ∷ [])

-- A request for playback is sent once, and forgotten.
unfoldable pub play_control_block : Block
unfolding command
play_control_block p =
    if dirty p.play_control
    then (
      command {A = PlayStatusSetPlaybackController}
            (record { status = EnableDisable.enable; control = p.play_control.desired })
          ∷ [],
      record p { play_control = overwrite p.play_control PlaybackControl.key_off },
    )
    else ([], p)

unfoldable pub listening_block : SupportFunctions → Block
unfolding contains_t1 send_commit
listening_block s = only λ p. when (contains_t1 s FunctionTable1.listening_option) (
    when (dirty p.bgm_mode_enabled || dirty p.bgm_mode_room_size) (
      send_commit {A = AudioParamBgmMode} bgm_mode (record {
        type = AudioInquiredType.bgm_mode_and_error_code;
        on_off = enable_if p.bgm_mode_enabled.desired;
        target_room_size = p.bgm_mode_room_size.desired;
      })
      ∷ [])
    ++ when (dirty p.upmix_cinema_enabled) (
        send_commit {A = AudioParamUpmixCinema} upmix_cinema (record {
          type = AudioInquiredType.upmix_cinema;
          on_off = enable_if p.upmix_cinema_enabled.desired;
        })
        ∷ []))

-- The bands are asked for again behind a new preset.
unfoldable pub eq_preset_block : Block
unfolding send_commit command
eq_preset_block = only λ p. when (dirty p.eq_preset_id) (
    send_commit {A = EqEbbParamEq} eq_preset
      (record { preset_id = p.eq_preset_id.desired; bands = [] })
    ∷ command eq_ebb_get_param
    ∷ [])

-- A gain on the wire: `(b + k) as u8`, the sum in an `i8`.
unfoldable pub wire_gain : ℕ → ℤ → ℕ
unfolding add_i8 as_u8
wire_gain k b = as_u8 (add_i8 b (pos k))

unfoldable pub wire_bands : Properties → List ℕ
unfolding wire_gain
wire_bands p =
    let gains = p.eq_config.desired in
    if length gains == 5
    then wire_gain 10 p.eq_clear_bass.desired ∷ map (wire_gain 10) gains
    else map (wire_gain 6) gains

abbrev pub eq_config_built : Properties → List ℤ → List (Option Step) × Properties
eq_config_built p [] =
    ([], record p { eq_config = commit p.eq_config; eq_clear_bass = commit p.eq_clear_bass })
eq_config_built p (_ ∷ _) = (
  send_commit {A = EqEbbParamEq} PropCommit.eq_config
        (record { preset_id = p.eq_preset_id.desired; bands = wire_bands p })
      ∷ command eq_ebb_get_param
      ∷ [],
  p,
)

unfoldable pub eq_config_block : Block
unfolding send_commit command wire_bands
eq_config_block p =
    if dirty p.eq_config || dirty p.eq_clear_bass
    then eq_config_built p p.eq_config.desired
    else ([], p)

unfoldable pub dsee_block : SupportFunctions → Block
unfolding contains_t1 send_commit
dsee_block s = only λ p.
    when (contains_t1 s FunctionTable1.upscaling_auto_off && dirty p.upscaling_enabled) (
      send_commit {A = AudioParamUpscaling} PropCommit.upscaling (record {
        type = AudioInquiredType.upscaling;
        setting_value =
            if p.upscaling_enabled.desired
            then UpscalingTypeAutoOff.auto
            else UpscalingTypeAutoOff.off;
      })
      ∷ [])
