-- ===== src/Protocol/Payloads/RoundTrip/NcAsm.antt =====
-- src/protocol/payloads.rs: `write` and `read` of the payloads of Protocol/Payloads/NcAsm.
use sony_buds_tray_control.Protocol.Codec.Reader
use sony_buds_tray_control.Protocol.Codec.Writer
use sony_buds_tray_control.Protocol.Payloads.NcAsm.{
  NcAsmGetParam, NcAsmParamAsmSeamless, NcAsmParamModeNcDualModeSwitchAsmSeamless,
  NcAsmParamModeNcDualModeSwitchAsmSeamlessNa, NcAsmParamNcAmbToggle, nc_asm_get_param_payload,
  nc_asm_param_asm_seamless_payload, nc_asm_param_mode_nc_dual_mode_switch_asm_seamless_na_payload,
  nc_asm_param_mode_nc_dual_mode_switch_asm_seamless_payload, nc_asm_param_nc_amb_toggle_payload,
  read_nc_asm_base, write_nc_asm_base,
}
use sony_buds_tray_control.Protocol.Enums.{
  ambient_sound_mode_enum, command_t1_enum, from_u8-to_u8, function_enum, nc_asm_inquired_type_enum,
  nc_asm_mode_enum, nc_asm_on_off_value_enum, noise_adaptive_sensitivity_enum,
  value_change_status_enum,
}
use sony_buds_tray_control.Protocol.Payloads.Base.{RoundTrip, serialize, deserialize}

nc_asm_get_param-RoundTrip : (p : NcAsmGetParam) → RoundTrip p
unfolding serialize deserialize Writer.u8 Reader.u8 write_nc_asm_base read_nc_asm_base
nc_asm_get_param-RoundTrip p = simp from_u8-to_u8

nc_asm_param_mode_nc_dual_mode_switch_asm_seamless-RoundTrip :
    (p : NcAsmParamModeNcDualModeSwitchAsmSeamless) → RoundTrip p
unfolding serialize deserialize Writer.u8 Reader.u8 write_nc_asm_base read_nc_asm_base
nc_asm_param_mode_nc_dual_mode_switch_asm_seamless-RoundTrip p = simp from_u8-to_u8

nc_asm_param_mode_nc_dual_mode_switch_asm_seamless_na-RoundTrip :
    (p : NcAsmParamModeNcDualModeSwitchAsmSeamlessNa) → RoundTrip p
unfolding serialize deserialize Writer.u8 Reader.u8 write_nc_asm_base read_nc_asm_base
nc_asm_param_mode_nc_dual_mode_switch_asm_seamless_na-RoundTrip p = simp from_u8-to_u8

nc_asm_param_asm_seamless-RoundTrip : (p : NcAsmParamAsmSeamless) → RoundTrip p
unfolding serialize deserialize Writer.u8 Reader.u8 write_nc_asm_base read_nc_asm_base
nc_asm_param_asm_seamless-RoundTrip p = simp from_u8-to_u8

nc_asm_param_nc_amb_toggle-RoundTrip : (p : NcAsmParamNcAmbToggle) → RoundTrip p
unfolding serialize deserialize Writer.u8 Reader.u8 write_nc_asm_base read_nc_asm_base
nc_asm_param_nc_amb_toggle-RoundTrip p = simp from_u8-to_u8

-- The payloads of this section, each read back as it was.
abbrev pub NcAsmRoundTrip : Type 0
NcAsmRoundTrip =
    ((p : NcAsmGetParam) → RoundTrip p)
    × ((p : NcAsmParamModeNcDualModeSwitchAsmSeamless) → RoundTrip p)
    × ((p : NcAsmParamModeNcDualModeSwitchAsmSeamlessNa) → RoundTrip p)
    × ((p : NcAsmParamAsmSeamless) → RoundTrip p)
    × ((p : NcAsmParamNcAmbToggle) → RoundTrip p)

-- What is sent of these payloads of the ambient sound section is read back as it was, whatever their fields hold.
pub nc_asm-RoundTrip : NcAsmRoundTrip
nc_asm-RoundTrip = (
  nc_asm_get_param-RoundTrip, nc_asm_param_mode_nc_dual_mode_switch_asm_seamless-RoundTrip,
  nc_asm_param_mode_nc_dual_mode_switch_asm_seamless_na-RoundTrip,
  nc_asm_param_asm_seamless-RoundTrip, nc_asm_param_nc_amb_toggle-RoundTrip,
)
