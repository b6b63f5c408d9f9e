-- ===== src/Protocol/Payloads/RoundTrip/Power.antt =====
-- src/protocol/payloads.rs: `write` and `read` of the payloads of Protocol/Payloads/Power.
use sony_buds_tray_control.Protocol.Codec.Reader
use sony_buds_tray_control.Protocol.Codec.Writer
use sony_buds_tray_control.Prelude.{refl}
use sony_buds_tray_control.Protocol.Codec.Reader.{Reader}
use sony_buds_tray_control.Protocol.Codec.Writer.{Writer}
use sony_buds_tray_control.Protocol.Enums.{from_u8-to_u8}
use sony_buds_tray_control.Protocol.Payloads.Base.{RoundTrip, deserialize, serialize}
use sony_buds_tray_control.Protocol.Payloads.Power.{
  PowerGetParam, PowerGetStatus, PowerParamAutoPowerOff, PowerSetStatusPowerOff,
  power_get_param_payload, power_get_status_payload, power_param_auto_power_off_payload,
  power_set_status_power_off, power_set_status_power_off_payload,
}

power_get_status-RoundTrip : (p : PowerGetStatus) → RoundTrip p
unfolding serialize deserialize Writer.u8 Reader.u8
power_get_status-RoundTrip p = simp from_u8-to_u8

power_get_param-RoundTrip : (p : PowerGetParam) → RoundTrip p
unfolding serialize deserialize Writer.u8 Reader.u8
power_get_param-RoundTrip p = simp from_u8-to_u8

power_param_auto_power_off-RoundTrip : (p : PowerParamAutoPowerOff) → RoundTrip p
unfolding serialize deserialize Writer.u8 Reader.u8
power_param_auto_power_off-RoundTrip p = simp from_u8-to_u8

power_set_status_power_off-RoundTrip : (p : PowerSetStatusPowerOff) → RoundTrip p
unfolding serialize deserialize Writer.u8 Reader.u8
power_set_status_power_off-RoundTrip power_set_status_power_off = refl

-- The payloads of this section, each read back as it was.
abbrev pub PowerRoundTrip : Type 0
PowerRoundTrip =
    ((p : PowerGetStatus) → RoundTrip p)
    × ((p : PowerGetParam) → RoundTrip p)
    × ((p : PowerParamAutoPowerOff) → RoundTrip p)
    × ((p : PowerSetStatusPowerOff) → RoundTrip p)

-- What is sent of these payloads of the power section is read back as it was, whatever their fields hold.
pub power-RoundTrip : PowerRoundTrip
power-RoundTrip = (
  power_get_status-RoundTrip, power_get_param-RoundTrip, power_param_auto_power_off-RoundTrip,
  power_set_status_power_off-RoundTrip,
)
