-- ===== src/Protocol/Payloads/RoundTrip/System.antt =====
-- src/protocol/payloads.rs: `write` and `read` of the payloads of Protocol/Payloads/System.
use sony_buds_tray_control.Protocol.Codec.Reader
use sony_buds_tray_control.Protocol.Codec.Writer
use sony_buds_tray_control.Protocol.Payloads.System.{
  SystemExtParamSmartTalkingMode2, SystemGetExtParam, SystemGetParam, SystemParamCommon,
  SystemParamSmartTalking, system_ext_param_smart_talking_mode2_payload,
  system_get_ext_param_payload, system_get_param_payload, system_param_assignable_settings_payload,
  system_param_common_payload, system_param_smart_talking_payload,
}
use sony_buds_tray_control.Protocol.Enums.{
  command_t1_enum, detect_sensitivity_enum, enable_disable_enum, from_u8-to_u8, mode_out_time_enum,
  preset_enum, system_inquired_type_enum,
}
use sony_buds_tray_control.Protocol.Payloads.Base.{RoundTrip, serialize, deserialize}

system_get_param-RoundTrip : (p : SystemGetParam) → RoundTrip p
unfolding serialize deserialize Writer.u8 Reader.u8
system_get_param-RoundTrip p = simp from_u8-to_u8

system_param_common-RoundTrip : (p : SystemParamCommon) → RoundTrip p
unfolding serialize deserialize Writer.u8 Reader.u8
system_param_common-RoundTrip p = simp from_u8-to_u8

system_param_smart_talking-RoundTrip : (p : SystemParamSmartTalking) → RoundTrip p
unfolding serialize deserialize Writer.u8 Reader.u8
system_param_smart_talking-RoundTrip p = simp from_u8-to_u8

system_get_ext_param-RoundTrip : (p : SystemGetExtParam) → RoundTrip p
unfolding serialize deserialize Writer.u8 Reader.u8
system_get_ext_param-RoundTrip p = simp from_u8-to_u8

system_ext_param_smart_talking_mode2-RoundTrip : (p : SystemExtParamSmartTalkingMode2) → RoundTrip p
unfolding serialize deserialize Writer.u8 Reader.u8
system_ext_param_smart_talking_mode2-RoundTrip p = simp from_u8-to_u8

-- The payloads of this section, each read back as it was.
abbrev pub SystemRoundTrip : Type 0
SystemRoundTrip =
    ((p : SystemGetParam) → RoundTrip p)
    × ((p : SystemParamCommon) → RoundTrip p)
    × ((p : SystemParamSmartTalking) → RoundTrip p)
    × ((p : SystemGetExtParam) → RoundTrip p)
    × ((p : SystemExtParamSmartTalkingMode2) → RoundTrip p)

-- What is sent of these payloads of the system section is read back as it was, whatever their fields hold.
pub system-RoundTrip : SystemRoundTrip
system-RoundTrip = (
  system_get_param-RoundTrip, system_param_common-RoundTrip, system_param_smart_talking-RoundTrip,
  system_get_ext_param-RoundTrip, system_ext_param_smart_talking_mode2-RoundTrip,
)
