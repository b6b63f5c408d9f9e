-- ===== src/Device/Engine/Dispatch/Equalizer.antt =====
-- src/device/engine.rs, `handle_command_t1`: the equalizer messages. Band arithmetic is on `i8`, and
-- wraps as it does in a release build.
use sony_buds_tray_control.Device.Engine.Defs.{Engine, Outcome, emit, equalizer, quiet}
use sony_buds_tray_control.Device.Engine.Dispatch.Common.{on_ok, put_props}
use sony_buds_tray_control.Device.Properties.{Properties}
use sony_buds_tray_control.Device.State.{fresh}
use sony_buds_tray_control.Prelude.{
  List, [], add_i8, as_i8, bool_eq, drop, get_elem?, if◌then◌else◌, int_eq, length, list_eq, map,
  nat_eq, none, option_eq, pos, some, sub_ℕ, ℕ, ℤ, ◌==◌, ◌∷◌,
}
use sony_buds_tray_control.Protocol.Enums.{
  OnOffSetting, ambient_sound_mode_enum, audio_inquired_type_enum, auto_power_off_elements_enum,
  command_t1_enum, command_t2_enum, enable_disable_enum, enum_eq, gs_setting_value_enum,
  nc_asm_inquired_type_enum, nc_asm_on_off_value_enum, on_off_setting_enum,
  peripheral_inquired_type_enum, play_inquired_type_enum, power_inquired_type_enum,
  source_switch_control_result_enum, system_inquired_type_enum, to_u8, upscaling_type_auto_off_enum,
  voice_guidance_inquired_type_enum,
}
use sony_buds_tray_control.Protocol.Payloads.{EqEbbParamEq, deserialize, eq_ebb_param_eq_payload}

-- `[0x53, 0x00, onOff]`.
unfoldable pub on_eq_status : List ℕ → Engine → Outcome
on_eq_status bytes e =
    let q = e.props in
    elim (get_elem? bytes 2) [
      | none ↦ quiet e
      | some b ↦
          emit (put_props e (record q { eq_available = fresh (b == to_u8 OnOffSetting.on) }))
            equalizer
    ]

-- `b as i8 - k`, for the bands of a report.
unfoldable pub gain_of : ℕ → ℕ → ℤ
unfolding as_i8 add_i8
gain_of k b = add_i8 (as_i8 b) (sub_ℕ 0 k)

unfoldable pub gains_of : ℕ → List ℕ → List ℤ
unfolding gain_of
gains_of k bands = map (gain_of k) bands

abbrev head_gain : List ℕ → ℤ
head_gain [] = pos 0
head_gain (b ∷ _) = gain_of 10 b

unfoldable pub adopt_bands : List ℕ → Properties → Properties
unfolding gains_of gain_of
adopt_bands bands q =
    if length bands == 6
    then record q {
      eq_clear_bass = fresh (head_gain bands);
      eq_config = fresh (gains_of 10 (drop 1 bands));
    }
    else if length bands == 10
    then record q { eq_clear_bass = fresh (pos 0); eq_config = fresh (gains_of 6 bands) }
    else q

unfoldable pub on_eq_param : List ℕ → Engine → Outcome
unfolding on_ok adopt_bands deserialize
on_eq_param bytes e = on_ok e (deserialize {A = EqEbbParamEq} bytes) λ p.
    let q = e.props in
    emit (put_props e (adopt_bands p.bands (record q { eq_preset_id = fresh p.preset_id })))
      equalizer
