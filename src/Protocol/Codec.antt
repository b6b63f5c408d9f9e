-- ===== src/Protocol/Codec.antt =====
-- src/protocol/codec.rs: the error type, and the helpers that read lists. `Reader` and `Writer`
-- have the two cursors, and `RoundTrip` relates them.
--
-- An operation takes its cursor and returns the value with the cursor behind it. Where it fails the
-- source may leave a cursor part way; every caller but one gives it up then, and that one
-- (the capability handler of the engine) is modelled with the cursor that the failure leaves.
pub mod Error
pub mod Reader
pub mod Writer
pub mod RoundTrip
