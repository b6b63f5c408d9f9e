-- ===== src/Device.antt =====
-- src/device: the headphone's state, and the engine that drives it.
pub mod State
pub mod Properties
pub mod Engine
