-- ===== src/Device/Engine/Dispatch/NcAsm.antt =====
-- src/device/engine.rs: `apply_nc_asm` and the noise cancelling messages of `handle_command_t1`.
use sony_buds_tray_control.Device.Engine.Defs.{Engine, Outcome, emit, nc_asm, quiet}
use sony_buds_tray_control.Device.Engine.Dispatch.Common.{on_ok, put_props, type_byte}
use sony_buds_tray_control.Device.Properties.{Properties}
use sony_buds_tray_control.Device.State.{Prop, fresh}
use sony_buds_tray_control.Prelude.{
  List, Option, bool_eq, eq, if◌then◌else◌, int_eq, list_eq, ltb, nat_eq, none, option_eq, some, ℕ,
}
use sony_buds_tray_control.Protocol.Enums.{
  AmbientSoundMode, NcAsmInquiredType, NcAsmMode, NcAsmOnOffValue, NoiseAdaptiveSensitivity,
  ambient_sound_mode_enum, audio_inquired_type_enum, auto_power_off_elements_enum, command_t1_enum,
  command_t2_enum, enable_disable_enum, enum_eq, from_u8, gs_setting_value_enum,
  nc_asm_inquired_type_enum, nc_asm_mode_enum, nc_asm_on_off_value_enum,
  noise_adaptive_sensitivity_enum, on_off_setting_enum, peripheral_inquired_type_enum,
  play_inquired_type_enum, power_inquired_type_enum, source_switch_control_result_enum,
  system_inquired_type_enum, upscaling_type_auto_off_enum, voice_guidance_inquired_type_enum,
}
use sony_buds_tray_control.Protocol.Payloads.{
  NcAsmParamAsmSeamless, NcAsmParamModeNcDualModeSwitchAsmSeamless,
  NcAsmParamModeNcDualModeSwitchAsmSeamlessNa, NcAsmParamNcAmbToggle, deserialize,
  nc_asm_param_asm_seamless_payload, nc_asm_param_mode_nc_dual_mode_switch_asm_seamless_na_payload,
  nc_asm_param_mode_nc_dual_mode_switch_asm_seamless_payload, nc_asm_param_nc_amb_toggle_payload,
}

-- `level.clamp(1, 20)`, of a `u8`.
unfoldable pub clamp_level : ℕ → ℕ
clamp_level v = if ltb v 1 then 1 else if ltb 20 v then 20 else v

-- `if let Some(v) = report { prop.overwrite(f(v)) }`.
abbrev adopt : {A B : Type 0} → Prop B → Option A → (A → B) → Prop B
adopt p none f = p
adopt p (some v) f = fresh (f v)

unfoldable pub apply_nc_asm :
    Properties
    → NcAsmOnOffValue
    → Option NcAsmMode
    → AmbientSoundMode
    → ℕ
    → Option NcAsmOnOffValue
    → Option NoiseAdaptiveSensitivity
    → Properties
unfolding clamp_level
apply_nc_asm q total_effect mode ambient_mode level noise_adaptive sensitivity = record q {
  nc_asm_enabled = fresh (eq total_effect NcAsmOnOffValue.on);
  nc_asm_mode = adopt q.nc_asm_mode mode (λ m. m);
  nc_asm_focus_on_voice = fresh (eq ambient_mode AmbientSoundMode.voice);
  nc_asm_ambient_level = if ltb 0 level then fresh (clamp_level level) else q.nc_asm_ambient_level;
  nc_asm_auto_asm_enabled =
      adopt q.nc_asm_auto_asm_enabled noise_adaptive (λ v. eq v NcAsmOnOffValue.on);
  nc_asm_noise_adaptive_sensitivity =
      adopt q.nc_asm_noise_adaptive_sensitivity sensitivity (λ v. v);
}

unfoldable pub on_nc_asm_type : NcAsmInquiredType → List ℕ → Engine → Outcome
unfolding on_ok apply_nc_asm deserialize
on_nc_asm_type NcAsmInquiredType.mode_nc_asm_dual_nc_mode_switch_and_asm_seamless bytes e =
    on_ok e (deserialize {A = NcAsmParamModeNcDualModeSwitchAsmSeamless} bytes) λ p.
      emit
        (put_props e (
          apply_nc_asm e.props p.base.nc_asm_total_effect (some p.nc_asm_mode) p.ambient_sound_mode
            p.ambient_sound_level none none))
        nc_asm
on_nc_asm_type NcAsmInquiredType.mode_nc_asm_dual_nc_mode_switch_and_asm_seamless_na bytes e =
    on_ok e (deserialize {A = NcAsmParamModeNcDualModeSwitchAsmSeamlessNa} bytes) λ p.
      emit
        (put_props e (
          apply_nc_asm e.props p.base.nc_asm_total_effect (some p.nc_asm_mode) p.ambient_sound_mode
            p.ambient_sound_level (some p.noise_adaptive_on_off)
            (some p.noise_adaptive_sensitivity)))
        nc_asm
on_nc_asm_type NcAsmInquiredType.asm_seamless bytes e =
    on_ok e (deserialize {A = NcAsmParamAsmSeamless} bytes) λ p.
      emit
        (put_props e (
          apply_nc_asm e.props p.base.nc_asm_total_effect none p.ambient_sound_mode
            p.ambient_sound_level none none))
        nc_asm
on_nc_asm_type NcAsmInquiredType.nc_amb_toggle bytes e =
    on_ok e (deserialize {A = NcAsmParamNcAmbToggle} bytes) λ p.
      let q = e.props in
      emit (put_props e (record q { nc_asm_button_function = fresh p.function })) nc_asm
on_nc_asm_type _ bytes e = quiet e

unfoldable pub on_nc_asm : List ℕ → Engine → Outcome
unfolding on_nc_asm_type
on_nc_asm bytes e = elim (type_byte bytes) [
  | none ↦ quiet e
  | some type ↦ on_nc_asm_type (from_u8 type) bytes e
]
