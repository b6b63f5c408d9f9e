-- ===== src/Device/Engine.antt =====
-- src/device/engine.rs. `Defs` has the data, `Runner` the step machine, `Frames` the two buffers,
-- `Dispatch` the handlers of the device's messages, and `Poll` one iteration of the loop.
mod Defs
pub mod Runner
pub mod Dispatch
pub mod Frames
pub mod Poll
pub mod Settle
pub mod Timeout
pub mod Invariant
pub mod Stable
pub mod Commit
pub mod Resolve
pub mod Build
unfoldable pub use Defs.*
