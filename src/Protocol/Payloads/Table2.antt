-- ===== src/Protocol/Payloads/Table2.antt =====
-- src/protocol/payloads.rs, the section "Table 2", the voice guidance payloads: the fields, the layout that `write`
-- produces and the one that `read` takes.
use sony_buds_tray_control.Protocol.Codec.Reader
use sony_buds_tray_control.Protocol.Codec.Writer
use sony_buds_tray_control.Prelude.{
  List, [], as_i8, as_u8, bool_eq, int_eq, list_eq, nat_eq, option_eq, ℕ, ℤ, ◌∷◌,
}
use sony_buds_tray_control.Protocol.Codec.Error.{pure, ◌>>=◌, ◌>>◌}
use sony_buds_tray_control.Protocol.Codec.Reader.{Reader}
use sony_buds_tray_control.Protocol.Codec.Writer.{Writer}
use sony_buds_tray_control.Protocol.Enums.{
  CommandT1, CommandT2, ConnectInquiredType, OnOffSetting, VoiceGuidanceInquiredType,
  command_t1_enum, command_t2_enum, connect_inquired_type_enum, enum_eq, from_u8,
  on_off_setting_enum, to_u8, voice_guidance_inquired_type_enum,
}
use sony_buds_tray_control.Protocol.Payloads.Base.{Payload}

pub data T2ConnectGetSupportFunction : Type 0 where
  t2_connect_get_support_function : T2ConnectGetSupportFunction

instance abbrev pub t2_connect_get_support_function_payload : Payload T2ConnectGetSupportFunction
t2_connect_get_support_function_payload = record {
  write = λ p. do
    Writer.u8 (to_u8 CommandT2.connect_get_support_function)
    Writer.u8 (to_u8 ConnectInquiredType.fixed_value);
  read = do
    Reader.u8
    Reader.u8
    pure t2_connect_get_support_function;
}

pub record VoiceGuidanceGetParam : Type 0 where
  pub type : VoiceGuidanceInquiredType

instance abbrev pub voice_guidance_get_param_payload : Payload VoiceGuidanceGetParam
voice_guidance_get_param_payload = record {
  write = λ p. do
    Writer.u8 (to_u8 CommandT2.voice_guidance_get_param)
    Writer.u8 (to_u8 p.type);
  read = do
    Reader.u8
    type ← Reader.u8
    pure (record { type = from_u8 type });
}

pub record VoiceGuidanceParamSettingMtk : Type 0 where
  pub type : VoiceGuidanceInquiredType
  pub setting_value : OnOffSetting

instance abbrev pub voice_guidance_param_setting_mtk_payload : Payload VoiceGuidanceParamSettingMtk
voice_guidance_param_setting_mtk_payload = record {
  write = λ p. do
    Writer.u8 (to_u8 CommandT2.voice_guidance_set_param)
    Writer.u8 (to_u8 p.type)
    Writer.u8 (to_u8 p.setting_value);
  read = do
    Reader.u8
    type ← Reader.u8
    setting_value ← Reader.u8
    pure (record { type = from_u8 type; setting_value = from_u8 setting_value });
}

pub record VoiceGuidanceSetParamVolume : Type 0 where
  pub volume : ℤ
  pub feedback_sound : OnOffSetting

instance abbrev pub voice_guidance_set_param_volume_payload : Payload VoiceGuidanceSetParamVolume
voice_guidance_set_param_volume_payload = record {
  write = λ p. do
    Writer.u8 (to_u8 CommandT2.voice_guidance_set_param)
    Writer.u8 (to_u8 VoiceGuidanceInquiredType.volume)
    Writer.u8 (as_u8 p.volume)
    Writer.u8 (to_u8 p.feedback_sound);
  read = do
    Reader.u8
    Reader.u8
    volume ← Reader.u8
    feedback_sound ← Reader.u8
    pure (record { volume = as_i8 volume; feedback_sound = from_u8 feedback_sound });
}

-- `[0xC4, 0x01, 0x00]`.
unfoldable pub log_set_status_payload : List ℕ
log_set_status_payload = to_u8 CommandT1.log_set_status ∷ 0x01 ∷ 0x00 ∷ []
