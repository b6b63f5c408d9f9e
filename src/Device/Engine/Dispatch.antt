-- ===== src/Device/Engine/Dispatch.antt =====
-- src/device/engine.rs, the command dispatch: one handler for each message of the device. A message
-- that does not deserialize is dropped.
mod Common
pub mod Reports
pub mod Equalizer
pub mod NcAsm
pub mod Playback
pub mod Audio
pub mod Multipoint
pub mod Table1
pub mod Table2
pub mod Keeps
pub mod Preserve
unfoldable pub use Common.*
