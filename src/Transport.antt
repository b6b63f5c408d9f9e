-- ===== src/Transport.antt =====
-- src/transport/mod.rs: the errors, the trait `Transport` and its in-memory pipe.
pub mod Classic
use sony_buds_tray_control.Prelude.{Bool, List, Result, ℕ, ◌++◌}
use sony_buds_tray_control.Text.{String}
use sony_buds_tray_control.Text.Literal.{text}

pub data PollStatus : Type 0 where
  ready timeout : PollStatus

pub data TransportError : Type 0 where
  not_found no_connection net bad_address not_supported timed_out closed : TransportError
  internal : String → TransportError

unfoldable pub to_mdr_code : TransportError → ℕ
to_mdr_code not_found = 3
to_mdr_code no_connection = 6
to_mdr_code net = 5
to_mdr_code bad_address = 7
to_mdr_code not_supported = 8
to_mdr_code timed_out = 4
to_mdr_code closed = 5
to_mdr_code (internal _) = 5

-- The part of the trait that the engine calls, on a connection whose state is a `C`. What a call
-- returns is up to the implementation and to the device.
pub record Transport (C : Type 0) : Type 0 where
  pub poll_read : C → Result TransportError PollStatus × C
  pub recv : ℕ → C → Result TransportError (List ℕ) × C
  pub send : List ℕ → C → Result TransportError ℕ × C

pub data TransportKind : Type 0 where
  classic ble : TransportKind

-- `Display` of the errors.
unfoldable pub error_text : TransportError → String
error_text TransportError.not_found = text "resource not found"
error_text TransportError.no_connection = text "no connection"
error_text TransportError.net = text "networking error"
error_text TransportError.bad_address = text "invalid address"
error_text TransportError.not_supported = text "not supported"
error_text TransportError.timed_out = text "timed out"
error_text TransportError.closed = text "connection closed"
error_text (TransportError.internal why) = text "internal error: " ++ why

-- src/transport/discovery.rs: a device that the adapter knows.
pub record DeviceInfo : Type 0 where
  pub name : String
  pub mac : String
  pub paired : Bool
  pub connected : Bool
