-- ===== src/Protocol/Payloads/RoundTrip/Playback.antt =====
-- src/protocol/payloads.rs: `write` and `read` of the payloads of Protocol/Payloads/Playback.
use sony_buds_tray_control.Protocol.Codec.Reader
use sony_buds_tray_control.Protocol.Codec.Writer
use sony_buds_tray_control.Prelude.{arith, ◌≡◌}
use sony_buds_tray_control.Protocol.Codec.Reader.{Reader}
use sony_buds_tray_control.Protocol.Codec.Writer.{Writer}
use sony_buds_tray_control.Protocol.Enums.{from_u8-to_u8}
use sony_buds_tray_control.Protocol.Payloads.Base.{RoundTrip, deserialize, serialize}
use sony_buds_tray_control.Protocol.Payloads.Playback.{
  AlertActionType, AlertNotifyParamFixedMessage, AlertSetStatusFixedMessage, GetPlayParam,
  GetPlayStatus, PlayParamPlaybackControllerVolume, PlayStatusPlaybackController,
  PlayStatusSetPlaybackController, alert_action_type_from, alert_action_type_to_u8,
  alert_notify_param_fixed_message_payload, alert_set_status_fixed_message_payload,
  get_play_param_payload, get_play_status_payload, play_param_playback_controller_volume_payload,
  play_status_playback_controller_payload, play_status_set_playback_controller_payload,
}

alert_set_status_fixed_message-RoundTrip : (p : AlertSetStatusFixedMessage) → RoundTrip p
unfolding serialize deserialize Writer.u8 Reader.u8
alert_set_status_fixed_message-RoundTrip p = simp from_u8-to_u8

get_play_param-RoundTrip : (p : GetPlayParam) → RoundTrip p
unfolding serialize deserialize Writer.u8 Reader.u8
get_play_param-RoundTrip p = simp from_u8-to_u8

get_play_status-RoundTrip : (p : GetPlayStatus) → RoundTrip p
unfolding serialize deserialize Writer.u8 Reader.u8
get_play_status-RoundTrip p = simp from_u8-to_u8

play_status_playback_controller-RoundTrip : (p : PlayStatusPlaybackController) → RoundTrip p
unfolding serialize deserialize Writer.u8 Reader.u8
play_status_playback_controller-RoundTrip p = simp from_u8-to_u8

play_status_set_playback_controller-RoundTrip : (p : PlayStatusSetPlaybackController) → RoundTrip p
unfolding serialize deserialize Writer.u8 Reader.u8
play_status_set_playback_controller-RoundTrip p = simp from_u8-to_u8

play_param_playback_controller_volume-RoundTrip :
    (p : PlayParamPlaybackControllerVolume) → RoundTrip p
unfolding serialize deserialize Writer.u8 Reader.u8
play_param_playback_controller_volume-RoundTrip p = simp from_u8-to_u8

action_type-RoundTrip :
    (a : AlertActionType) → alert_action_type_from (alert_action_type_to_u8 a) ≡ a
unfolding alert_action_type_from alert_action_type_to_u8
action_type-RoundTrip a = ground arith

alert_notify_param_fixed_message-RoundTrip : (p : AlertNotifyParamFixedMessage) → RoundTrip p
unfolding serialize deserialize Writer.u8 Reader.u8
alert_notify_param_fixed_message-RoundTrip p = simp (from_u8-to_u8, action_type-RoundTrip)

-- The payloads of this section, each read back as it was.
abbrev pub PlaybackRoundTrip : Type 0
PlaybackRoundTrip =
    ((p : AlertSetStatusFixedMessage) → RoundTrip p)
    × ((p : AlertNotifyParamFixedMessage) → RoundTrip p)
    × ((p : GetPlayParam) → RoundTrip p)
    × ((p : GetPlayStatus) → RoundTrip p)
    × ((p : PlayStatusPlaybackController) → RoundTrip p)
    × ((p : PlayStatusSetPlaybackController) → RoundTrip p)
    × ((p : PlayParamPlaybackControllerVolume) → RoundTrip p)

-- What is sent of these payloads of the playback section is read back as it was, whatever their fields hold.
pub playback-RoundTrip : PlaybackRoundTrip
playback-RoundTrip = (
  alert_set_status_fixed_message-RoundTrip, alert_notify_param_fixed_message-RoundTrip,
  get_play_param-RoundTrip, get_play_status-RoundTrip, play_status_playback_controller-RoundTrip,
  play_status_set_playback_controller-RoundTrip, play_param_playback_controller_volume-RoundTrip,
)
