-- ===== src/Protocol/Payloads.antt =====
-- src/protocol/payloads.rs: a record for each payload with an instance of `Payload`, by sections.
mod Base
mod Connect
mod Power
mod Equalizer
mod NcAsm
mod Playback
mod GeneralSetting
mod Audio
mod System
mod Table2
mod Peripheral
pub mod RoundTrip
unfoldable pub use Base.*
unfoldable pub use Connect.*
unfoldable pub use Power.*
unfoldable pub use Equalizer.*
unfoldable pub use NcAsm.*
unfoldable pub use Playback.*
unfoldable pub use GeneralSetting.*
unfoldable pub use Audio.*
unfoldable pub use System.*
unfoldable pub use Table2.*
unfoldable pub use Peripheral.*
