-- ===== src/Protocol/Payloads/RoundTrip/GeneralSetting.antt =====
-- src/protocol/payloads.rs: `write` and `read` of the payloads of Protocol/Payloads/GeneralSetting.
use sony_buds_tray_control.Protocol.Codec.Reader
use sony_buds_tray_control.Protocol.Codec.Writer
use sony_buds_tray_control.Protocol.Payloads.GeneralSetting.{
  GsGetCapability, GsGetParam, GsParamBoolean, gs_get_capability_payload, gs_get_param_payload,
  gs_param_boolean_payload, gs_ret_capability_payload,
}
use sony_buds_tray_control.Protocol.Enums.{
  command_t1_enum, display_language_enum, from_u8-to_u8, gs_inquired_type_enum,
  gs_setting_type_enum, gs_setting_value_enum, gs_string_format_enum,
}
use sony_buds_tray_control.Protocol.Payloads.Base.{RoundTrip, serialize, deserialize}

gs_get_capability-RoundTrip : (p : GsGetCapability) → RoundTrip p
unfolding serialize deserialize Writer.u8 Reader.u8
gs_get_capability-RoundTrip p = simp from_u8-to_u8

gs_get_param-RoundTrip : (p : GsGetParam) → RoundTrip p
unfolding serialize deserialize Writer.u8 Reader.u8
gs_get_param-RoundTrip p = simp from_u8-to_u8

gs_param_boolean-RoundTrip : (p : GsParamBoolean) → RoundTrip p
unfolding serialize deserialize Writer.u8 Reader.u8
gs_param_boolean-RoundTrip p = simp from_u8-to_u8

-- The payloads of this section, each read back as it was.
abbrev pub GeneralSettingRoundTrip : Type 0
GeneralSettingRoundTrip =
    ((p : GsGetCapability) → RoundTrip p)
    × ((p : GsGetParam) → RoundTrip p)
    × ((p : GsParamBoolean) → RoundTrip p)

-- What is sent of these payloads of the general settings is read back as it was, whatever their fields hold.
pub general_setting-RoundTrip : GeneralSettingRoundTrip
general_setting-RoundTrip =
    (gs_get_capability-RoundTrip, gs_get_param-RoundTrip, gs_param_boolean-RoundTrip)
