-- ===== src/Protocol/Payloads/System.antt =====
-- src/protocol/payloads.rs, the section "System" payloads: the fields, the layout that `write`
-- produces and the one that `read` takes.
use sony_buds_tray_control.Protocol.Codec.Reader
use sony_buds_tray_control.Protocol.Codec.Writer
use sony_buds_tray_control.Prelude.{List, bool_eq, int_eq, list_eq, nat_eq, option_eq}
use sony_buds_tray_control.Protocol.Codec.Error.{pure, ◌>>=◌, ◌>>◌}
use sony_buds_tray_control.Protocol.Codec.Reader.{Reader}
use sony_buds_tray_control.Protocol.Codec.Writer.{Writer}
use sony_buds_tray_control.Protocol.Enums.{
  CommandT1, DetectSensitivity, EnableDisable, ModeOutTime, Preset, SystemInquiredType,
  command_t1_enum, detect_sensitivity_enum, enable_disable_enum, enum_eq, from_u8,
  mode_out_time_enum, preset_enum, system_inquired_type_enum, to_u8,
}
use sony_buds_tray_control.Protocol.Payloads.Base.{Payload}

pub record SystemGetParam : Type 0 where
  pub type : SystemInquiredType

instance abbrev pub system_get_param_payload : Payload SystemGetParam
system_get_param_payload = record {
  write = λ p. do
    Writer.u8 (to_u8 CommandT1.system_get_param)
    Writer.u8 (to_u8 p.type);
  read = do
    Reader.u8
    type ← Reader.u8
    pure (record { type = from_u8 type });
}

pub record SystemParamCommon : Type 0 where
  pub type : SystemInquiredType
  pub setting_value : EnableDisable

instance abbrev pub system_param_common_payload : Payload SystemParamCommon
system_param_common_payload = record {
  write = λ p. do
    Writer.u8 (to_u8 CommandT1.system_set_param)
    Writer.u8 (to_u8 p.type)
    Writer.u8 (to_u8 p.setting_value);
  read = do
    Reader.u8
    type ← Reader.u8
    setting_value ← Reader.u8
    pure (record { type = from_u8 type; setting_value = from_u8 setting_value });
}

pub record SystemParamSmartTalking : Type 0 where
  pub type : SystemInquiredType
  pub on_off : EnableDisable
  pub preview_mode_on_off : EnableDisable

instance abbrev pub system_param_smart_talking_payload : Payload SystemParamSmartTalking
system_param_smart_talking_payload = record {
  write = λ p. do
    Writer.u8 (to_u8 CommandT1.system_set_param)
    Writer.u8 (to_u8 p.type)
    Writer.u8 (to_u8 p.on_off)
    Writer.u8 (to_u8 p.preview_mode_on_off);
  read = do
    Reader.u8
    type ← Reader.u8
    on_off ← Reader.u8
    preview_mode_on_off ← Reader.u8
    pure (record {
      type = from_u8 type;
      on_off = from_u8 on_off;
      preview_mode_on_off = from_u8 preview_mode_on_off;
    });
}

pub record SystemParamAssignableSettings : Type 0 where
  pub presets : List Preset

instance abbrev pub system_param_assignable_settings_payload : Payload SystemParamAssignableSettings
system_param_assignable_settings_payload = record {
  write = λ p. do
    Writer.u8 (to_u8 CommandT1.system_set_param)
    Writer.u8 (to_u8 SystemInquiredType.assignable_settings)
    Writer.pod_array to_u8 p.presets;
  read = do
    Reader.u8
    Reader.u8
    presets ← Reader.read_pod_array from_u8
    pure (record { presets = presets });
}

pub record SystemGetExtParam : Type 0 where
  pub type : SystemInquiredType

instance abbrev pub system_get_ext_param_payload : Payload SystemGetExtParam
system_get_ext_param_payload = record {
  write = λ p. do
    Writer.u8 (to_u8 CommandT1.system_get_ext_param)
    Writer.u8 (to_u8 p.type);
  read = do
    Reader.u8
    type ← Reader.u8
    pure (record { type = from_u8 type });
}

pub record SystemExtParamSmartTalkingMode2 : Type 0 where
  pub type : SystemInquiredType
  pub detect_sensitivity : DetectSensitivity
  pub mode_off_time : ModeOutTime

instance abbrev pub system_ext_param_smart_talking_mode2_payload :
    Payload SystemExtParamSmartTalkingMode2
system_ext_param_smart_talking_mode2_payload = record {
  write = λ p. do
    Writer.u8 (to_u8 CommandT1.system_set_ext_param)
    Writer.u8 (to_u8 p.type)
    Writer.u8 (to_u8 p.detect_sensitivity)
    Writer.u8 (to_u8 p.mode_off_time);
  read = do
    Reader.u8
    type ← Reader.u8
    detect_sensitivity ← Reader.u8
    mode_off_time ← Reader.u8
    pure (record {
      type = from_u8 type;
      detect_sensitivity = from_u8 detect_sensitivity;
      mode_off_time = from_u8 mode_off_time;
    });
}
