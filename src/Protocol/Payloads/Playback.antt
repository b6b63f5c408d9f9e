-- ===== src/Protocol/Payloads/Playback.antt =====
-- src/protocol/payloads.rs, the section "Alert" and "Playback" payloads: the fields, the layout that `write`
-- produces and the one that `read` takes.
use sony_buds_tray_control.Protocol.Codec.Reader
use sony_buds_tray_control.Protocol.Codec.Writer
use sony_buds_tray_control.Prelude.{
  List, [], bool_eq, if◌then◌else◌, int_eq, length, list_eq, nat_eq, option_eq, suc, zero, ℕ, ◌==◌,
  ◌∷◌,
}
use sony_buds_tray_control.Protocol.Codec.Error.{Op, fail, invalid_argument, pure, ◌>>=◌, ◌>>◌}
use sony_buds_tray_control.Protocol.Codec.Reader.{Reader}
use sony_buds_tray_control.Protocol.Codec.Writer.{Write, Writer}
use sony_buds_tray_control.Protocol.Enums.{
  AlertInquiredType, AlertMessageType, CommandT1, EnableDisable, MusicCallStatus, PlayInquiredType,
  PlaybackControl, PlaybackNameStatus, PlaybackStatus, alert_inquired_type_enum,
  alert_message_type_enum, command_t1_enum, enable_disable_enum, enum_eq, from_u8,
  music_call_status_enum, play_inquired_type_enum, playback_control_enum, playback_name_status_enum,
  playback_status_enum, to_u8,
}
use sony_buds_tray_control.Protocol.Payloads.Base.{Payload}
use sony_buds_tray_control.Text.{String}

pub data AlertActionType : Type 0 where
  confirmation_only positive_negative positive_confirmation_with_reply unknown : AlertActionType

unfoldable pub alert_action_type_from : ℕ → AlertActionType
alert_action_type_from v =
    if v == 0
    then confirmation_only
    else if v == 1
    then positive_negative
    else if v == 2
    then positive_confirmation_with_reply
    else unknown

unfoldable pub alert_action_type_to_u8 : AlertActionType → ℕ
alert_action_type_to_u8 confirmation_only = 0
alert_action_type_to_u8 positive_negative = 1
alert_action_type_to_u8 positive_confirmation_with_reply = 2
alert_action_type_to_u8 unknown = 0xFF

pub record AlertSetStatusFixedMessage : Type 0 where
  pub status : EnableDisable

instance abbrev pub alert_set_status_fixed_message_payload : Payload AlertSetStatusFixedMessage
alert_set_status_fixed_message_payload = record {
  write = λ p. do
    Writer.u8 (to_u8 CommandT1.alert_set_status)
    Writer.u8 (to_u8 AlertInquiredType.fixed_message)
    Writer.u8 (to_u8 p.status);
  read = do
    Reader.u8
    Reader.u8
    status ← Reader.u8
    pure (record { status = from_u8 status });
}

pub record AlertNotifyParamFixedMessage : Type 0 where
  pub message_type : AlertMessageType
  pub action_type : AlertActionType

instance abbrev pub alert_notify_param_fixed_message_payload : Payload AlertNotifyParamFixedMessage
alert_notify_param_fixed_message_payload = record {
  write = λ p. do
    Writer.u8 (to_u8 CommandT1.alert_ntfy_param)
    Writer.u8 (to_u8 AlertInquiredType.fixed_message)
    Writer.u8 (to_u8 p.message_type)
    Writer.u8 (alert_action_type_to_u8 p.action_type);
  read = do
    Reader.u8
    Reader.u8
    message_type ← Reader.u8
    action_type ← Reader.u8
    pure (record {
      message_type = from_u8 message_type;
      action_type = alert_action_type_from action_type;
    });
}

pub record GetPlayParam : Type 0 where
  pub type : PlayInquiredType

instance abbrev pub get_play_param_payload : Payload GetPlayParam
get_play_param_payload = record {
  write = λ p. do
    Writer.u8 (to_u8 CommandT1.play_get_param)
    Writer.u8 (to_u8 p.type);
  read = do
    Reader.u8
    type ← Reader.u8
    pure (record { type = from_u8 type });
}

pub record GetPlayStatus : Type 0 where
  pub type : PlayInquiredType

instance abbrev pub get_play_status_payload : Payload GetPlayStatus
get_play_status_payload = record {
  write = λ p. do
    Writer.u8 (to_u8 CommandT1.play_get_status)
    Writer.u8 (to_u8 p.type);
  read = do
    Reader.u8
    type ← Reader.u8
    pure (record { type = from_u8 type });
}

pub record PlayStatusPlaybackController : Type 0 where
  pub type : PlayInquiredType
  pub status : EnableDisable
  pub playback_status : PlaybackStatus
  pub music_call_status : MusicCallStatus

instance abbrev pub play_status_playback_controller_payload : Payload PlayStatusPlaybackController
play_status_playback_controller_payload = record {
  write = λ p. do
    Writer.u8 (to_u8 CommandT1.play_ret_status)
    Writer.u8 (to_u8 p.type)
    Writer.u8 (to_u8 p.status)
    Writer.u8 (to_u8 p.playback_status)
    Writer.u8 (to_u8 p.music_call_status);
  read = do
    Reader.u8
    type ← Reader.u8
    status ← Reader.u8
    playback_status ← Reader.u8
    music_call_status ← Reader.u8
    pure (record {
      type = from_u8 type;
      status = from_u8 status;
      playback_status = from_u8 playback_status;
      music_call_status = from_u8 music_call_status;
    });
}

pub record PlayStatusSetPlaybackController : Type 0 where
  pub status : EnableDisable
  pub control : PlaybackControl

instance abbrev pub play_status_set_playback_controller_payload :
    Payload PlayStatusSetPlaybackController
play_status_set_playback_controller_payload = record {
  write = λ p. do
    Writer.u8 (to_u8 CommandT1.play_set_status)
    Writer.u8 (to_u8 PlayInquiredType.playback_control_with_call_volume_adjustment)
    Writer.u8 (to_u8 p.status)
    Writer.u8 (to_u8 p.control);
  read = do
    Reader.u8
    Reader.u8
    status ← Reader.u8
    control ← Reader.u8
    pure (record { status = from_u8 status; control = from_u8 control });
}

pub record PlayParamPlaybackControllerVolume : Type 0 where
  pub type : PlayInquiredType
  pub volume : ℕ

instance abbrev pub play_param_playback_controller_volume_payload :
    Payload PlayParamPlaybackControllerVolume
play_param_playback_controller_volume_payload = record {
  write = λ p. do
    Writer.u8 (to_u8 CommandT1.play_set_param)
    Writer.u8 (to_u8 p.type)
    Writer.u8 p.volume;
  read = do
    Reader.u8
    type ← Reader.u8
    volume ← Reader.u8
    pure (record { type = from_u8 type; volume = volume });
}

pub record PlaybackName : Type 0 where
  pub status : PlaybackNameStatus
  pub name : String

pub record PlayParamPlaybackControllerName : Type 0 where
  pub type : PlayInquiredType
  pub names : List PlaybackName

unfoldable pub write_names : List PlaybackName → Write
unfolding Writer.u8 Writer.prefixed_string
write_names [] = pure tt
write_names (n ∷ ns) = do Writer.u8 (to_u8 n.status); Writer.prefixed_string n.name; write_names ns

-- `for _ in 0..4`.
unfoldable pub read_names : ℕ → Op Reader (List PlaybackName)
unfolding Reader.u8 Reader.read_prefixed_string
read_names zero = pure []
read_names (suc count) = do
  status ← Reader.u8
  name ← Reader.read_prefixed_string
  rest ← read_names count
  pure (record { status = from_u8 status; name = name } ∷ rest)

instance abbrev pub play_param_playback_controller_name_payload :
    Payload PlayParamPlaybackControllerName
play_param_playback_controller_name_payload = record {
  write = λ p. do
    Writer.u8 (to_u8 CommandT1.play_ret_param)
    Writer.u8 (to_u8 p.type)
    if length p.names == 4 then write_names p.names else fail invalid_argument;
  read = do
    Reader.u8
    type ← Reader.u8
    names ← read_names 4
    pure (record { type = from_u8 type; names = names });
}
