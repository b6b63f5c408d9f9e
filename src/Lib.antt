-- ===== src/Lib.antt =====
-- sony-buds-tray-control drives Sony earbuds from the desktop's tray. A program thread polls an
-- engine, which speaks the device's MDR protocol over a transport: it frames and parses packets, keeps
-- what the device reports, and sends what the user asks for, one acknowledged command at a time.
--
-- The files and the code they are about:
--   Prelude            what the modules share: lists and tests on native numbers, Rust's Result,
--                      signed machine integers, PartialEq
--   Text               strings as lists of code points; the UTF-8 of the standard library, which
--                      src/protocol/codec.rs uses
--   Protocol/Packet    src/protocol/packet.rs: escape, unescape, pack, unpack_full
--   Protocol/Codec     src/protocol/codec.rs: Reader, Writer, SerError
--   Protocol/Enums     src/protocol/enums.rs: every enumeration, from_u8 and to_u8
--   Protocol/Payloads  src/protocol/payloads.rs: every payload, its write and its read
--   Transport          src/transport/mod.rs: the errors, and the trait as a record of operations
--   Transport/Classic  src/transport/classic.rs: reading and writing of ClassicTransport over a socket,
--                      and in Address the parsing of an address (parse_mac)
--   Device/State, Device/Properties
--                      src/device/state.rs: what the device reports, and what the user can set
--   Device/Engine      src/device/engine.rs: Defs has the data, Runner the step machine
--                      (advance_task, advance_on, check_deadline), Frames the two buffers
--                      (flush_send_buf, process_frame), Dispatch the handlers of the messages of both
--                      tables (handle_command_t1, handle_command_t2), Poll one iteration (poll),
--                      Build the requests (request_init, request_sync, request_commit) and the steps
--                      they build
--   Config             src/config.rs: the settings that are kept, and the text of their file
--   App                src/app.rs: Command (apply_command), Connection (teardown, arm_reconnect, the
--                      way into a connection), Tick (poll_engine, tick), Snapshot
--   Main               src/main.rs: the loop of the application's task
--   Tests              the theorems at concrete inputs
--
-- How code corresponds to definitions. A byte is a number below 256, and arithmetic on bytes that can
-- wrap is written with its remainder, as in a release build. A method that changes `self` returns the
-- changed record, and a handler the record with the event that it reports. The connection, which the
-- engine owns in the source, is passed beside the engine, and its operations are the argument
-- `Transport`: what they return is up to the operating system and the device. The clock is an argument
-- in milliseconds, read once for a call. `last_error` keeps the error whose text the source keeps.
--
-- Loops. Lists that are consumed are structural. `settle` runs the loop of `advance_task` over
-- conditional steps with the weight of the steps as fuel, and `flush_from` the loop of
-- `flush_send_buf` with the length of the buffer, of which each round that goes on removes a byte.
--
-- The application owns the engine, the clock, the adapter, the transports and the file system. The
-- engine with its connection is a field, as in the source; the rest is the argument `Outside`, whose
-- operations may answer anything and change its state. The 30 seconds that a connection may take are
-- given to `connect_within`, which answers nothing when they are over. Where the source would panic, on
-- an `expect` or in a builder of steps, a function gives `none`.
--
-- Not modelled: the menu and the texts of the snapshot in src/app.rs; the way to a Bluetooth connection
-- in src/transport/classic.rs (the lookup over SDP, the options of the socket), src/transport/gatt.rs,
-- src/transport/discovery.rs, the tray and the command line, which are input and output; the path of
-- the settings file; log lines, and the texts of the enumerations.
pub mod Prelude
pub mod Text
pub mod Config
pub mod Protocol
pub mod Transport
pub mod Device
pub mod App
pub mod Main
pub mod Tests
