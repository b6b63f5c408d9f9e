-- ===== src/Protocol.antt =====
-- src/protocol.
pub mod Codec
pub mod Enums
pub mod Packet
pub mod Payloads
