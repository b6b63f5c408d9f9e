-- ===== src/Protocol/Enums.antt =====
-- src/protocol/enums.rs. `Macro` has what the enum macros generate for every enum.
mod Macro
mod Framing
mod OpcodesT1
mod OpcodesT2
mod FunctionsT1
mod FunctionsT2
mod Basic
mod DeviceInfo
mod Power
mod Equalizer
mod NcAsm
mod Button
mod Alert
mod Playback
mod Settings
mod Audio
mod System
unfoldable pub use Macro.*
unfoldable pub use Framing.*
unfoldable pub use OpcodesT1.*
unfoldable pub use OpcodesT2.*
unfoldable pub use FunctionsT1.*
unfoldable pub use FunctionsT2.*
unfoldable pub use Basic.*
unfoldable pub use DeviceInfo.*
unfoldable pub use Power.*
unfoldable pub use Equalizer.*
unfoldable pub use NcAsm.*
unfoldable pub use Button.*
unfoldable pub use Alert.*
unfoldable pub use Playback.*
unfoldable pub use Settings.*
unfoldable pub use Audio.*
unfoldable pub use System.*
