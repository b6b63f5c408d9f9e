-- ===== src/Protocol/Payloads/Audio.antt =====
-- src/protocol/payloads.rs, the section "Audio" payloads: the fields, the layout that `write`
-- produces and the one that `read` takes.
use sony_buds_tray_control.Protocol.Codec.Reader
use sony_buds_tray_control.Protocol.Codec.Writer
use sony_buds_tray_control.Prelude.{bool_eq, int_eq, list_eq, nat_eq, option_eq}
use sony_buds_tray_control.Protocol.Codec.Error.{pure, ◌>>=◌, ◌>>◌}
use sony_buds_tray_control.Protocol.Codec.Reader.{Reader}
use sony_buds_tray_control.Protocol.Codec.Writer.{Writer}
use sony_buds_tray_control.Protocol.Enums.{
  AudioInquiredType, CommandT1, EnableDisable, PriorMode, RoomSize, UpscalingType,
  UpscalingTypeAutoOff, audio_inquired_type_enum, command_t1_enum, enable_disable_enum, enum_eq,
  from_u8, prior_mode_enum, room_size_enum, to_u8, upscaling_type_auto_off_enum,
  upscaling_type_enum,
}
use sony_buds_tray_control.Protocol.Payloads.Base.{Payload}

pub record AudioGetCapability : Type 0 where
  pub type : AudioInquiredType

instance abbrev pub audio_get_capability_payload : Payload AudioGetCapability
audio_get_capability_payload = record {
  write = λ p. do
    Writer.u8 (to_u8 CommandT1.audio_get_capability)
    Writer.u8 (to_u8 p.type);
  read = do
    Reader.u8
    type ← Reader.u8
    pure (record { type = from_u8 type });
}

pub record AudioRetCapabilityUpscaling : Type 0 where
  pub upscaling_type : UpscalingType

instance abbrev pub audio_ret_capability_upscaling_payload : Payload AudioRetCapabilityUpscaling
audio_ret_capability_upscaling_payload = record {
  write = λ p. do
    Writer.u8 (to_u8 CommandT1.audio_ret_capability)
    Writer.u8 (to_u8 AudioInquiredType.upscaling)
    Writer.u8 (to_u8 p.upscaling_type);
  read = do
    Reader.u8
    Reader.u8
    upscaling_type ← Reader.u8
    pure (record { upscaling_type = from_u8 upscaling_type });
}

pub record AudioGetStatus : Type 0 where
  pub type : AudioInquiredType

instance abbrev pub audio_get_status_payload : Payload AudioGetStatus
audio_get_status_payload = record {
  write = λ p. do
    Writer.u8 (to_u8 CommandT1.audio_get_status)
    Writer.u8 (to_u8 p.type);
  read = do
    Reader.u8
    type ← Reader.u8
    pure (record { type = from_u8 type });
}

pub record AudioStatusCommon : Type 0 where
  pub type : AudioInquiredType
  pub status : EnableDisable

instance abbrev pub audio_status_common_payload : Payload AudioStatusCommon
audio_status_common_payload = record {
  write = λ p. do
    Writer.u8 (to_u8 CommandT1.audio_ret_status)
    Writer.u8 (to_u8 p.type)
    Writer.u8 (to_u8 p.status);
  read = do
    Reader.u8
    type ← Reader.u8
    status ← Reader.u8
    pure (record { type = from_u8 type; status = from_u8 status });
}

pub record AudioGetParam : Type 0 where
  pub type : AudioInquiredType

instance abbrev pub audio_get_param_payload : Payload AudioGetParam
audio_get_param_payload = record {
  write = λ p. do
    Writer.u8 (to_u8 CommandT1.audio_get_param)
    Writer.u8 (to_u8 p.type);
  read = do
    Reader.u8
    type ← Reader.u8
    pure (record { type = from_u8 type });
}

pub record AudioParamUpscaling : Type 0 where
  pub type : AudioInquiredType
  pub setting_value : UpscalingTypeAutoOff

instance abbrev pub audio_param_upscaling_payload : Payload AudioParamUpscaling
audio_param_upscaling_payload = record {
  write = λ p. do
    Writer.u8 (to_u8 CommandT1.audio_set_param)
    Writer.u8 (to_u8 p.type)
    Writer.u8 (to_u8 p.setting_value);
  read = do
    Reader.u8
    type ← Reader.u8
    setting_value ← Reader.u8
    pure (record { type = from_u8 type; setting_value = from_u8 setting_value });
}

pub record AudioParamConnection : Type 0 where
  pub type : AudioInquiredType
  pub setting_value : PriorMode

instance abbrev pub audio_param_connection_payload : Payload AudioParamConnection
audio_param_connection_payload = record {
  write = λ p. do
    Writer.u8 (to_u8 CommandT1.audio_set_param)
    Writer.u8 (to_u8 p.type)
    Writer.u8 (to_u8 p.setting_value);
  read = do
    Reader.u8
    type ← Reader.u8
    setting_value ← Reader.u8
    pure (record { type = from_u8 type; setting_value = from_u8 setting_value });
}

pub record AudioParamBgmMode : Type 0 where
  pub type : AudioInquiredType
  pub on_off : EnableDisable
  pub target_room_size : RoomSize

instance abbrev pub audio_param_bgm_mode_payload : Payload AudioParamBgmMode
audio_param_bgm_mode_payload = record {
  write = λ p. do
    Writer.u8 (to_u8 CommandT1.audio_set_param)
    Writer.u8 (to_u8 p.type)
    Writer.u8 (to_u8 p.on_off)
    Writer.u8 (to_u8 p.target_room_size);
  read = do
    Reader.u8
    type ← Reader.u8
    on_off ← Reader.u8
    target_room_size ← Reader.u8
    pure (record {
      type = from_u8 type;
      on_off = from_u8 on_off;
      target_room_size = from_u8 target_room_size;
    });
}

pub record AudioParamUpmixCinema : Type 0 where
  pub type : AudioInquiredType
  pub on_off : EnableDisable

instance abbrev pub audio_param_upmix_cinema_payload : Payload AudioParamUpmixCinema
audio_param_upmix_cinema_payload = record {
  write = λ p. do
    Writer.u8 (to_u8 CommandT1.audio_set_param)
    Writer.u8 (to_u8 p.type)
    Writer.u8 (to_u8 p.on_off);
  read = do
    Reader.u8
    type ← Reader.u8
    on_off ← Reader.u8
    pure (record { type = from_u8 type; on_off = from_u8 on_off });
}
