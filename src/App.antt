-- ===== src/App.antt =====
-- src/app.rs. `Defs` has the data, `Command` what a command does, `Connection` the ways into and out of
-- a connection, `Tick` the periodic step.
mod Defs
pub mod Connection
pub mod Command
pub mod Tick
pub mod Invariant
pub mod Snapshot
pub mod Settings
pub mod Reconnect
pub mod Events
pub mod Fresh
unfoldable pub use Defs.*
