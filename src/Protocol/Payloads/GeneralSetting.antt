-- ===== src/Protocol/Payloads/GeneralSetting.antt =====
-- src/protocol/payloads.rs, the section "General Setting" payloads: the fields, the layout that `write`
-- produces and the one that `read` takes.
use sony_buds_tray_control.Protocol.Codec.Reader
use sony_buds_tray_control.Protocol.Codec.Writer
use sony_buds_tray_control.Prelude.{bool_eq, int_eq, list_eq, nat_eq, option_eq}
use sony_buds_tray_control.Protocol.Codec.Error.{pure, ◌>>=◌, ◌>>◌}
use sony_buds_tray_control.Protocol.Codec.Reader.{Reader}
use sony_buds_tray_control.Protocol.Codec.Writer.{Writer}
use sony_buds_tray_control.Protocol.Enums.{
  CommandT1, DisplayLanguage, GsInquiredType, GsSettingType, GsSettingValue, GsStringFormat,
  command_t1_enum, display_language_enum, enum_eq, from_u8, gs_inquired_type_enum,
  gs_setting_type_enum, gs_setting_value_enum, gs_string_format_enum, to_u8,
}
use sony_buds_tray_control.Protocol.Payloads.Base.{Payload}
use sony_buds_tray_control.Text.{String}

pub record GsGetCapability : Type 0 where
  pub type : GsInquiredType
  pub display_language : DisplayLanguage

instance abbrev pub gs_get_capability_payload : Payload GsGetCapability
gs_get_capability_payload = record {
  write = λ p. do
    Writer.u8 (to_u8 CommandT1.general_setting_get_capability)
    Writer.u8 (to_u8 p.type)
    Writer.u8 (to_u8 p.display_language);
  read = do
    Reader.u8
    type ← Reader.u8
    display_language ← Reader.u8
    pure (record { type = from_u8 type; display_language = from_u8 display_language });
}

pub record GsGetParam : Type 0 where
  pub type : GsInquiredType

instance abbrev pub gs_get_param_payload : Payload GsGetParam
gs_get_param_payload = record {
  write = λ p. do
    Writer.u8 (to_u8 CommandT1.general_setting_get_param)
    Writer.u8 (to_u8 p.type);
  read = do
    Reader.u8
    type ← Reader.u8
    pure (record { type = from_u8 type });
}

pub record GsParamBoolean : Type 0 where
  pub type : GsInquiredType
  pub setting_value : GsSettingValue

instance abbrev pub gs_param_boolean_payload : Payload GsParamBoolean
gs_param_boolean_payload = record {
  write = λ p. do
    Writer.u8 (to_u8 CommandT1.general_setting_set_param)
    Writer.u8 (to_u8 p.type)
    Writer.u8 (to_u8 GsSettingType.boolean_type)
    Writer.u8 (to_u8 p.setting_value);
  read = do
    Reader.u8
    type ← Reader.u8
    Reader.u8
    setting_value ← Reader.u8
    pure (record { type = from_u8 type; setting_value = from_u8 setting_value });
}

pub record GsRetCapability : Type 0 where
  pub type : GsInquiredType
  pub setting_type : GsSettingType
  pub string_format : GsStringFormat
  pub subject : String
  pub summary : String

instance abbrev pub gs_ret_capability_payload : Payload GsRetCapability
gs_ret_capability_payload = record {
  write = λ p. do
    Writer.u8 (to_u8 CommandT1.general_setting_ret_capability)
    Writer.u8 (to_u8 p.type)
    Writer.u8 (to_u8 p.setting_type)
    Writer.u8 (to_u8 p.string_format)
    Writer.prefixed_string p.subject
    Writer.prefixed_string p.summary;
  read = do
    Reader.u8
    type ← Reader.u8
    setting_type ← Reader.u8
    string_format ← Reader.u8
    subject ← Reader.read_prefixed_string
    summary ← Reader.read_prefixed_string
    pure (record {
      type = from_u8 type;
      setting_type = from_u8 setting_type;
      string_format = from_u8 string_format;
      subject = subject;
      summary = summary;
    });
}
