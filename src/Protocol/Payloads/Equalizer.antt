-- ===== src/Protocol/Payloads/Equalizer.antt =====
-- src/protocol/payloads.rs, the section "EQ" payloads: the fields, the layout that `write`
-- produces and the one that `read` takes.
use sony_buds_tray_control.Protocol.Codec.Reader
use sony_buds_tray_control.Protocol.Codec.Writer
use sony_buds_tray_control.Prelude.{List, bool_eq, int_eq, list_eq, nat_eq, option_eq, ℕ}
use sony_buds_tray_control.Protocol.Codec.Error.{pure, ◌>>=◌, ◌>>◌}
use sony_buds_tray_control.Protocol.Codec.Reader.{Reader}
use sony_buds_tray_control.Protocol.Codec.Writer.{Writer}
use sony_buds_tray_control.Protocol.Enums.{
  CommandT1, EqEbbInquiredType, EqPresetId, command_t1_enum, enum_eq, eq_ebb_inquired_type_enum,
  eq_preset_id_enum, from_u8, to_u8,
}
use sony_buds_tray_control.Protocol.Payloads.Base.{Payload}

pub data EqEbbGetStatus : Type 0 where
  eq_ebb_get_status : EqEbbGetStatus

instance abbrev pub eq_ebb_get_status_payload : Payload EqEbbGetStatus
eq_ebb_get_status_payload = record {
  write = λ p. do
    Writer.u8 (to_u8 CommandT1.eq_ebb_get_status)
    Writer.u8 (to_u8 EqEbbInquiredType.preset_eq);
  read = do
    Reader.u8
    Reader.u8
    pure eq_ebb_get_status;
}

pub data EqEbbGetParam : Type 0 where
  eq_ebb_get_param : EqEbbGetParam

instance abbrev pub eq_ebb_get_param_payload : Payload EqEbbGetParam
eq_ebb_get_param_payload = record {
  write = λ p. do
    Writer.u8 (to_u8 CommandT1.eq_ebb_get_param)
    Writer.u8 (to_u8 EqEbbInquiredType.preset_eq);
  read = do
    Reader.u8
    Reader.u8
    pure eq_ebb_get_param;
}

pub record EqEbbParamEq : Type 0 where
  pub preset_id : EqPresetId
  pub bands : List ℕ

instance abbrev pub eq_ebb_param_eq_payload : Payload EqEbbParamEq
eq_ebb_param_eq_payload = record {
  write = λ p. do
    Writer.u8 (to_u8 CommandT1.eq_ebb_set_param)
    Writer.u8 (to_u8 EqEbbInquiredType.preset_eq)
    Writer.u8 (to_u8 p.preset_id)
    Writer.pod_array (λ b. b) p.bands;
  read = do
    Reader.u8
    Reader.u8
    preset_id ← Reader.u8
    bands ← Reader.read_pod_array (λ b. b)
    pure (record { preset_id = from_u8 preset_id; bands = bands });
}
