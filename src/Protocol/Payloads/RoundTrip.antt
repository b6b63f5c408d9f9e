-- ===== src/Protocol/Payloads/RoundTrip.antt =====
-- src/protocol/payloads.rs: `write` and `read` together, by sections.
pub mod Power
pub mod NcAsm
pub mod System
pub mod GeneralSetting
pub mod Audio
pub mod Playback
use sony_buds_tray_control.Protocol.Payloads.RoundTrip.Audio.{AudioRoundTrip, audio-RoundTrip}
use sony_buds_tray_control.Protocol.Payloads.RoundTrip.GeneralSetting.{
  GeneralSettingRoundTrip, general_setting-RoundTrip,
}
use sony_buds_tray_control.Protocol.Payloads.RoundTrip.NcAsm.{NcAsmRoundTrip, nc_asm-RoundTrip}
use sony_buds_tray_control.Protocol.Payloads.RoundTrip.Playback.{
  PlaybackRoundTrip, playback-RoundTrip,
}
use sony_buds_tray_control.Protocol.Payloads.RoundTrip.Power.{PowerRoundTrip, power-RoundTrip}
use sony_buds_tray_control.Protocol.Payloads.RoundTrip.System.{SystemRoundTrip, system-RoundTrip}

-- Of the payloads of noise control, audio, the system, playback with its alerts, the general settings and
-- power, all but the report of the batteries and those that hold a list or a string: each is read back
-- from the bytes that are sent of it as it was, whatever its fields hold.
pub fixed_layouts-RoundTrip :
    NcAsmRoundTrip × AudioRoundTrip × SystemRoundTrip × PlaybackRoundTrip × GeneralSettingRoundTrip
    × PowerRoundTrip
fixed_layouts-RoundTrip = (
  nc_asm-RoundTrip, audio-RoundTrip, system-RoundTrip, playback-RoundTrip,
  general_setting-RoundTrip, power-RoundTrip,
)
