-- ===== src/Device/Engine/Build.antt =====
-- src/device/engine.rs, the task builders: the steps of a request. A builder is an `Option`, since
-- `serialize` can panic.
pub mod Common
pub mod Init
pub mod Sync
pub mod Block
pub mod Sound
pub mod Settings
pub mod Commit
pub mod Request
pub mod Exclusive
pub mod Total
pub mod Fits
pub mod CommitTotal
pub mod Keeps
