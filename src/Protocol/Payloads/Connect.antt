-- ===== src/Protocol/Payloads/Connect.antt =====
-- src/protocol/payloads.rs, the section "Connect" payloads: the fields, the layout that `write`
-- produces and the one that `read` takes.
use sony_buds_tray_control.Protocol.Codec.Reader
use sony_buds_tray_control.Protocol.Codec.Writer
use sony_buds_tray_control.Prelude.{
  List, [], bool_eq, if◌then◌else◌, int_eq, leb, length, list_eq, nat_eq, option_eq, suc, zero, ℕ,
  ◌%◌, ◌∷◌,
}
use sony_buds_tray_control.Protocol.Codec.Error.{
  Op, fail, invalid_argument, malformed, pure, ◌>>=◌, ◌>>◌,
}
use sony_buds_tray_control.Protocol.Codec.Reader.{Reader}
use sony_buds_tray_control.Protocol.Codec.Writer.{Write, Writer}
use sony_buds_tray_control.Protocol.Enums.{
  AudioCodec, CommandT1, CommonInquiredType, ConnectInquiredType, DeviceInfoType, EnableDisable,
  ModelColor, ModelSeriesType, audio_codec_enum, command_t1_enum, common_inquired_type_enum,
  connect_inquired_type_enum, device_info_type_enum, enable_disable_enum, enum_eq, from_u8,
  model_color_enum, model_series_type_enum, to_u8,
}
use sony_buds_tray_control.Protocol.Payloads.Base.{Payload}
use sony_buds_tray_control.Text.{String}

pub data ConnectGetProtocolInfo : Type 0 where
  connect_get_protocol_info : ConnectGetProtocolInfo

instance abbrev pub connect_get_protocol_info_payload : Payload ConnectGetProtocolInfo
connect_get_protocol_info_payload = record {
  write = λ p. do
    Writer.u8 (to_u8 CommandT1.connect_get_protocol_info)
    Writer.u8 (to_u8 ConnectInquiredType.fixed_value);
  read = do
    Reader.u8
    Reader.u8
    pure connect_get_protocol_info;
}

pub record ConnectRetProtocolInfo : Type 0 where
  pub protocol_version : ℕ
  pub support_table1 : EnableDisable
  pub support_table2 : EnableDisable

instance abbrev pub connect_ret_protocol_info_payload : Payload ConnectRetProtocolInfo
connect_ret_protocol_info_payload = record {
  write = λ p. do
    Writer.u8 (to_u8 CommandT1.connect_ret_protocol_info)
    Writer.u8 (to_u8 ConnectInquiredType.fixed_value)
    Writer.u32_be p.protocol_version
    Writer.u8 (to_u8 p.support_table1)
    Writer.u8 (to_u8 p.support_table2);
  read = do
    Reader.u8
    Reader.u8
    protocol_version ← Reader.u32_be
    support_table1 ← Reader.u8
    support_table2 ← Reader.u8
    pure (record {
      protocol_version = protocol_version;
      support_table1 = from_u8 support_table1;
      support_table2 = from_u8 support_table2;
    });
}

pub data ConnectGetCapabilityInfo : Type 0 where
  connect_get_capability_info : ConnectGetCapabilityInfo

instance abbrev pub connect_get_capability_info_payload : Payload ConnectGetCapabilityInfo
connect_get_capability_info_payload = record {
  write = λ p. do
    Writer.u8 (to_u8 CommandT1.connect_get_capability_info)
    Writer.u8 (to_u8 ConnectInquiredType.fixed_value);
  read = do
    Reader.u8
    Reader.u8
    pure connect_get_capability_info;
}

pub record ConnectGetDeviceInfo : Type 0 where
  pub device_info_type : DeviceInfoType

instance abbrev pub connect_get_device_info_payload : Payload ConnectGetDeviceInfo
connect_get_device_info_payload = record {
  write = λ p. do
    Writer.u8 (to_u8 CommandT1.connect_get_device_info)
    Writer.u8 (to_u8 p.device_info_type);
  read = do
    Reader.u8
    device_info_type ← Reader.u8
    pure (record { device_info_type = from_u8 device_info_type });
}

pub data ConnectGetSupportFunction : Type 0 where
  connect_get_support_function : ConnectGetSupportFunction

instance abbrev pub connect_get_support_function_payload : Payload ConnectGetSupportFunction
connect_get_support_function_payload = record {
  write = λ p. do
    Writer.u8 (to_u8 CommandT1.connect_get_support_function)
    Writer.u8 (to_u8 ConnectInquiredType.fixed_value);
  read = do
    Reader.u8
    Reader.u8
    pure connect_get_support_function;
}

pub record CommonGetStatus : Type 0 where
  pub type : CommonInquiredType

instance abbrev pub common_get_status_payload : Payload CommonGetStatus
common_get_status_payload = record {
  write = λ p. do
    Writer.u8 (to_u8 CommandT1.common_get_status)
    Writer.u8 (to_u8 p.type);
  read = do
    Reader.u8
    type ← Reader.u8
    pure (record { type = from_u8 type });
}

pub record CommonStatusAudioCodec : Type 0 where
  pub audio_codec : AudioCodec

instance abbrev pub common_status_audio_codec_payload : Payload CommonStatusAudioCodec
common_status_audio_codec_payload = record {
  write = λ p. do
    Writer.u8 (to_u8 CommandT1.common_ret_status)
    Writer.u8 (to_u8 CommonInquiredType.audio_codec)
    Writer.u8 (to_u8 p.audio_codec);
  read = do
    Reader.u8
    Reader.u8
    audio_codec ← Reader.u8
    pure (record { audio_codec = from_u8 audio_codec });
}

pub data DeviceInfoResponse : Type 0 where
  model_name : String → DeviceInfoResponse
  fw_version : String → DeviceInfoResponse
  series_and_color : ModelSeriesType → ModelColor → DeviceInfoResponse

unfoldable pub write_device_info_response : DeviceInfoResponse → Write
unfolding Writer.u8 Writer.prefixed_string
write_device_info_response (model_name v) = do
  Writer.u8 (to_u8 CommandT1.connect_ret_device_info)
  Writer.u8 (to_u8 DeviceInfoType.model_name)
  Writer.prefixed_string v
write_device_info_response (fw_version v) = do
  Writer.u8 (to_u8 CommandT1.connect_ret_device_info)
  Writer.u8 (to_u8 DeviceInfoType.fw_version)
  Writer.prefixed_string v
write_device_info_response (series_and_color series color) = do
  Writer.u8 (to_u8 CommandT1.connect_ret_device_info)
  Writer.u8 (to_u8 DeviceInfoType.series_and_color_info)
  Writer.u8 (to_u8 series)
  Writer.u8 (to_u8 color)

-- The part that the type byte selects.
unfoldable pub read_device_info : DeviceInfoType → Op Reader DeviceInfoResponse
unfolding Reader.u8 Reader.read_prefixed_string
read_device_info DeviceInfoType.model_name = do v ← Reader.read_prefixed_string; pure (model_name v)
read_device_info DeviceInfoType.fw_version = do v ← Reader.read_prefixed_string; pure (fw_version v)
read_device_info DeviceInfoType.series_and_color_info = do
  series ← Reader.u8
  color ← Reader.u8
  pure (series_and_color (from_u8 series) (from_u8 color))
read_device_info _ = fail malformed

instance abbrev pub device_info_response_payload : Payload DeviceInfoResponse
device_info_response_payload = record {
  write = write_device_info_response;
  read = do
    Reader.u8
    type ← Reader.u8
    read_device_info (from_u8 type);
}

pub record SupportFunction : Type 0 where
  pub function : ℕ
  pub priority : ℕ

pub record ConnectRetSupportFunction : Type 0 where
  pub functions : List SupportFunction

unfoldable pub write_functions : List SupportFunction → Write
unfolding Writer.u8
write_functions [] = pure tt
write_functions (f ∷ fs) = do Writer.u8 f.function; Writer.u8 f.priority; write_functions fs

-- `for _ in 0..count`.
unfoldable pub read_functions : ℕ → Op Reader (List SupportFunction)
unfolding Reader.u8
read_functions zero = pure []
read_functions (suc count) = do
  function ← Reader.u8
  priority ← Reader.u8
  rest ← read_functions count
  pure (record { function = function; priority = priority } ∷ rest)

instance abbrev pub connect_ret_support_function_payload : Payload ConnectRetSupportFunction
connect_ret_support_function_payload = record {
  write = λ p. do
    Writer.u8 (to_u8 CommandT1.connect_ret_support_function)
    Writer.u8 (to_u8 ConnectInquiredType.fixed_value)
    if leb 256 (length p.functions)
        then fail invalid_argument
        else (do Writer.u8 (length p.functions % 256); write_functions p.functions);
  read = do
    Reader.u8
    Reader.u8
    count ← Reader.u8
    functions ← read_functions count
    pure (record { functions = functions });
}
