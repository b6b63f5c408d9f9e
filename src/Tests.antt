-- ===== src/Tests.antt =====
-- The theorems applied to concrete frames, engines and values.
mod Protocol
mod Device
mod App
mod Transport
