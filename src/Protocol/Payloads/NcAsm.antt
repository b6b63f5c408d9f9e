-- ===== src/Protocol/Payloads/NcAsm.antt =====
-- src/protocol/payloads.rs, the section "NC/ASM" payloads: the fields, the layout that `write`
-- produces and the one that `read` takes.
use sony_buds_tray_control.Protocol.Codec.Reader
use sony_buds_tray_control.Protocol.Codec.Writer
use sony_buds_tray_control.Prelude.{bool_eq, int_eq, list_eq, nat_eq, option_eq, ℕ}
use sony_buds_tray_control.Protocol.Codec.Error.{Op, pure, ◌>>=◌, ◌>>◌}
use sony_buds_tray_control.Protocol.Codec.Reader.{Reader}
use sony_buds_tray_control.Protocol.Codec.Writer.{Write, Writer}
use sony_buds_tray_control.Protocol.Enums.{
  AmbientSoundMode, CommandT1, Function, NcAsmInquiredType, NcAsmMode, NcAsmOnOffValue,
  NoiseAdaptiveSensitivity, ValueChangeStatus, ambient_sound_mode_enum, command_t1_enum, enum_eq,
  from_u8, function_enum, nc_asm_inquired_type_enum, nc_asm_mode_enum, nc_asm_on_off_value_enum,
  noise_adaptive_sensitivity_enum, to_u8, value_change_status_enum,
}
use sony_buds_tray_control.Protocol.Payloads.Base.{Payload}

pub record NcAsmParamBase : Type 0 where
  pub type : NcAsmInquiredType
  pub value_change_status : ValueChangeStatus
  pub nc_asm_total_effect : NcAsmOnOffValue

unfoldable pub write_nc_asm_base : NcAsmParamBase → Write
unfolding Writer.u8
write_nc_asm_base b = do
  Writer.u8 (to_u8 b.type)
  Writer.u8 (to_u8 b.value_change_status)
  Writer.u8 (to_u8 b.nc_asm_total_effect)

unfoldable pub read_nc_asm_base : Op Reader NcAsmParamBase
unfolding Reader.u8
read_nc_asm_base = do
  type ← Reader.u8
  value_change_status ← Reader.u8
  nc_asm_total_effect ← Reader.u8
  pure (record {
    type = from_u8 type;
    value_change_status = from_u8 value_change_status;
    nc_asm_total_effect = from_u8 nc_asm_total_effect;
  })

pub record NcAsmGetParam : Type 0 where
  pub type : NcAsmInquiredType

instance abbrev pub nc_asm_get_param_payload : Payload NcAsmGetParam
nc_asm_get_param_payload = record {
  write = λ p. do
    Writer.u8 (to_u8 CommandT1.nc_asm_get_param)
    Writer.u8 (to_u8 p.type);
  read = do
    Reader.u8
    type ← Reader.u8
    pure (record { type = from_u8 type });
}

pub record NcAsmParamModeNcDualModeSwitchAsmSeamless : Type 0 where
  pub base : NcAsmParamBase
  pub nc_asm_mode : NcAsmMode
  pub ambient_sound_mode : AmbientSoundMode
  pub ambient_sound_level : ℕ

instance abbrev pub nc_asm_param_mode_nc_dual_mode_switch_asm_seamless_payload :
    Payload NcAsmParamModeNcDualModeSwitchAsmSeamless
nc_asm_param_mode_nc_dual_mode_switch_asm_seamless_payload = record {
  write = λ p. do
    Writer.u8 (to_u8 CommandT1.nc_asm_set_param)
    write_nc_asm_base p.base
    Writer.u8 (to_u8 p.nc_asm_mode)
    Writer.u8 (to_u8 p.ambient_sound_mode)
    Writer.u8 p.ambient_sound_level;
  read = do
    Reader.u8
    base ← read_nc_asm_base
    nc_asm_mode ← Reader.u8
    ambient_sound_mode ← Reader.u8
    ambient_sound_level ← Reader.u8
    pure (record {
      base = base;
      nc_asm_mode = from_u8 nc_asm_mode;
      ambient_sound_mode = from_u8 ambient_sound_mode;
      ambient_sound_level = ambient_sound_level;
    });
}

pub record NcAsmParamModeNcDualModeSwitchAsmSeamlessNa : Type 0 where
  pub base : NcAsmParamBase
  pub nc_asm_mode : NcAsmMode
  pub ambient_sound_mode : AmbientSoundMode
  pub ambient_sound_level : ℕ
  pub noise_adaptive_on_off : NcAsmOnOffValue
  pub noise_adaptive_sensitivity : NoiseAdaptiveSensitivity

instance abbrev pub nc_asm_param_mode_nc_dual_mode_switch_asm_seamless_na_payload :
    Payload NcAsmParamModeNcDualModeSwitchAsmSeamlessNa
nc_asm_param_mode_nc_dual_mode_switch_asm_seamless_na_payload = record {
  write = λ p. do
    Writer.u8 (to_u8 CommandT1.nc_asm_set_param)
    write_nc_asm_base p.base
    Writer.u8 (to_u8 p.nc_asm_mode)
    Writer.u8 (to_u8 p.ambient_sound_mode)
    Writer.u8 p.ambient_sound_level
    Writer.u8 (to_u8 p.noise_adaptive_on_off)
    Writer.u8 (to_u8 p.noise_adaptive_sensitivity);
  read = do
    Reader.u8
    base ← read_nc_asm_base
    nc_asm_mode ← Reader.u8
    ambient_sound_mode ← Reader.u8
    ambient_sound_level ← Reader.u8
    noise_adaptive_on_off ← Reader.u8
    noise_adaptive_sensitivity ← Reader.u8
    pure (record {
      base = base;
      nc_asm_mode = from_u8 nc_asm_mode;
      ambient_sound_mode = from_u8 ambient_sound_mode;
      ambient_sound_level = ambient_sound_level;
      noise_adaptive_on_off = from_u8 noise_adaptive_on_off;
      noise_adaptive_sensitivity = from_u8 noise_adaptive_sensitivity;
    });
}

pub record NcAsmParamAsmSeamless : Type 0 where
  pub base : NcAsmParamBase
  pub ambient_sound_mode : AmbientSoundMode
  pub ambient_sound_level : ℕ

instance abbrev pub nc_asm_param_asm_seamless_payload : Payload NcAsmParamAsmSeamless
nc_asm_param_asm_seamless_payload = record {
  write = λ p. do
    Writer.u8 (to_u8 CommandT1.nc_asm_set_param)
    write_nc_asm_base p.base
    Writer.u8 (to_u8 p.ambient_sound_mode)
    Writer.u8 p.ambient_sound_level;
  read = do
    Reader.u8
    base ← read_nc_asm_base
    ambient_sound_mode ← Reader.u8
    ambient_sound_level ← Reader.u8
    pure (record {
      base = base;
      ambient_sound_mode = from_u8 ambient_sound_mode;
      ambient_sound_level = ambient_sound_level;
    });
}

pub record NcAsmParamNcAmbToggle : Type 0 where
  pub type : NcAsmInquiredType
  pub function : Function

instance abbrev pub nc_asm_param_nc_amb_toggle_payload : Payload NcAsmParamNcAmbToggle
nc_asm_param_nc_amb_toggle_payload = record {
  write = λ p. do
    Writer.u8 (to_u8 CommandT1.nc_asm_set_param)
    Writer.u8 (to_u8 p.type)
    Writer.u8 (to_u8 p.function);
  read = do
    Reader.u8
    type ← Reader.u8
    function ← Reader.u8
    pure (record { type = from_u8 type; function = from_u8 function });
}
