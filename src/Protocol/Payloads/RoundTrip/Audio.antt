-- ===== src/Protocol/Payloads/RoundTrip/Audio.antt =====
-- src/protocol/payloads.rs: `write` and `read` of the payloads of Protocol/Payloads/Audio.
use sony_buds_tray_control.Protocol.Codec.Reader
use sony_buds_tray_control.Protocol.Codec.Writer
use sony_buds_tray_control.Protocol.Payloads.Audio.{
  AudioGetCapability, AudioGetParam, AudioGetStatus, AudioParamBgmMode, AudioParamConnection,
  AudioParamUpmixCinema, AudioParamUpscaling, AudioRetCapabilityUpscaling, AudioStatusCommon,
  audio_get_capability_payload, audio_get_param_payload, audio_get_status_payload,
  audio_param_bgm_mode_payload, audio_param_connection_payload, audio_param_upmix_cinema_payload,
  audio_param_upscaling_payload, audio_ret_capability_upscaling_payload,
  audio_status_common_payload,
}
use sony_buds_tray_control.Protocol.Enums.{
  audio_inquired_type_enum, command_t1_enum, enable_disable_enum, from_u8-to_u8, prior_mode_enum,
  room_size_enum, upscaling_type_auto_off_enum, upscaling_type_enum,
}
use sony_buds_tray_control.Protocol.Payloads.Base.{RoundTrip, serialize, deserialize}

audio_get_capability-RoundTrip : (p : AudioGetCapability) → RoundTrip p
unfolding serialize deserialize Writer.u8 Reader.u8
audio_get_capability-RoundTrip p = simp from_u8-to_u8

audio_ret_capability_upscaling-RoundTrip : (p : AudioRetCapabilityUpscaling) → RoundTrip p
unfolding serialize deserialize Writer.u8 Reader.u8
audio_ret_capability_upscaling-RoundTrip p = simp from_u8-to_u8

audio_get_status-RoundTrip : (p : AudioGetStatus) → RoundTrip p
unfolding serialize deserialize Writer.u8 Reader.u8
audio_get_status-RoundTrip p = simp from_u8-to_u8

audio_status_common-RoundTrip : (p : AudioStatusCommon) → RoundTrip p
unfolding serialize deserialize Writer.u8 Reader.u8
audio_status_common-RoundTrip p = simp from_u8-to_u8

audio_get_param-RoundTrip : (p : AudioGetParam) → RoundTrip p
unfolding serialize deserialize Writer.u8 Reader.u8
audio_get_param-RoundTrip p = simp from_u8-to_u8

audio_param_upscaling-RoundTrip : (p : AudioParamUpscaling) → RoundTrip p
unfolding serialize deserialize Writer.u8 Reader.u8
audio_param_upscaling-RoundTrip p = simp from_u8-to_u8

audio_param_connection-RoundTrip : (p : AudioParamConnection) → RoundTrip p
unfolding serialize deserialize Writer.u8 Reader.u8
audio_param_connection-RoundTrip p = simp from_u8-to_u8

audio_param_bgm_mode-RoundTrip : (p : AudioParamBgmMode) → RoundTrip p
unfolding serialize deserialize Writer.u8 Reader.u8
audio_param_bgm_mode-RoundTrip p = simp from_u8-to_u8

audio_param_upmix_cinema-RoundTrip : (p : AudioParamUpmixCinema) → RoundTrip p
unfolding serialize deserialize Writer.u8 Reader.u8
audio_param_upmix_cinema-RoundTrip p = simp from_u8-to_u8

-- The payloads of this section, each read back as it was.
abbrev pub AudioRoundTrip : Type 0
AudioRoundTrip =
    ((p : AudioGetCapability) → RoundTrip p)
    × ((p : AudioRetCapabilityUpscaling) → RoundTrip p)
    × ((p : AudioGetStatus) → RoundTrip p)
    × ((p : AudioStatusCommon) → RoundTrip p)
    × ((p : AudioGetParam) → RoundTrip p)
    × ((p : AudioParamUpscaling) → RoundTrip p)
    × ((p : AudioParamConnection) → RoundTrip p)
    × ((p : AudioParamBgmMode) → RoundTrip p)
    × ((p : AudioParamUpmixCinema) → RoundTrip p)

-- What is sent of these payloads of the audio section is read back as it was, whatever their fields hold.
pub audio-RoundTrip : AudioRoundTrip
audio-RoundTrip = (
  audio_get_capability-RoundTrip, audio_ret_capability_upscaling-RoundTrip,
  audio_get_status-RoundTrip, audio_status_common-RoundTrip, audio_get_param-RoundTrip,
  audio_param_upscaling-RoundTrip, audio_param_connection-RoundTrip, audio_param_bgm_mode-RoundTrip,
  audio_param_upmix_cinema-RoundTrip,
)
