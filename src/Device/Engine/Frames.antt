-- ===== src/Device/Engine/Frames.antt =====
-- src/device/engine.rs: the two buffers. `flush_send_buf` writes in chunks; `process_frame` takes one
-- frame out of what was received, and acknowledges it.
pub mod Stream
pub mod Flush
use sony_buds_tray_control.Device.Engine.Defs.{Engine, Outcome, ack, quiet}
use sony_buds_tray_control.Device.Engine.Dispatch.Table1.{handle_command_t1}
use sony_buds_tray_control.Device.Engine.Dispatch.Table2.{handle_command_t2}
use sony_buds_tray_control.Device.Engine.Runner.{advance_on, flip, start}
use sony_buds_tray_control.Prelude.{
  List, Option, Result, [], drop, err, false, if◌then◌else◌, length, ltb, none, not, ok, some, suc,
  take, true, zero, ℕ, ◌++◌, ◌==◌, ◌∷◌,
}
use sony_buds_tray_control.Protocol.Enums.{DataType, data_type_enum}
use sony_buds_tray_control.Protocol.Packet.{
  Frame, UnpackResult, end_marker, incomplete, last_or_zero, max_packet_size, pack, start_marker,
  unpack_full,
}
use sony_buds_tray_control.Transport.{Transport, TransportError, closed, no_connection}

abbrev pub chunk_size : ℕ
chunk_size = 512

abbrev pub max_frame : ℕ
max_frame = max_packet_size

abbrev map_some : (ℕ → ℕ) → Option ℕ → Option ℕ
map_some f none = none
map_some f (some n) = some (f n)

-- The index of the first byte that is `b`.
unfoldable pub position : ℕ → List ℕ → Option ℕ
position b [] = none
position b (x ∷ xs) = let rest = position b xs in if x == b then some 0 else map_some suc rest

-- What a flush leaves: an error if there was one, the bytes that still wait, and the connection.
pub record Flushed (C : Type 0) : Type 0 where
  pub error : Option TransportError
  pub left : List ℕ
  pub conn : C

-- A round drains a chunk, sends it, and puts back what was not accepted.
unfoldable pub flush_from : {C : Type 0} → Transport C → ℕ → List ℕ → C → Flushed C
flush_from t zero buf c = record { error = none; left = buf; conn = c }
flush_from t (suc fuel) [] c = record { error = none; left = []; conn = c }
flush_from t (suc fuel) (b ∷ bs) c =
    let chunk = take chunk_size (b ∷ bs) in
    let rest = drop chunk_size (b ∷ bs) in
    let answer = t.send chunk c in
    elim answer.0 [
      | err e ↦ record { error = some e; left = rest; conn = answer.1 }
      | ok zero ↦ record { error = some no_connection; left = rest; conn = answer.1 }
      | ok (suc sent) ↦ elim (ltb (suc sent) (length chunk)) [
        | true ↦ record { error = none; left = drop (suc sent) chunk ++ rest; conn = answer.1 }
        | false ↦ flush_from t fuel rest answer.1
      ]
    ]

-- Each round that goes on shortens the buffer, so its length is fuel enough.
unfoldable pub flush_send_buf : {C : Type 0} → Transport C → Engine → C → Flushed C
unfolding flush_from
flush_send_buf t e c = flush_from t (length e.send_buf) e.send_buf c

unfoldable pub recv_into_buffer :
    {C : Type 0} → Transport C → Engine → C → Result TransportError Engine × C
recv_into_buffer t e c =
    let answer = t.recv max_frame c in
    (
      elim answer.0 [
        | err why ↦ err why
        | ok [] ↦ err closed
        | ok (b ∷ bs) ↦ ok (record e { recv_buf = e.recv_buf ++ b ∷ bs })
      ],
      answer.1,
    )

unfoldable pub send_ack : ℕ → Engine → Engine
unfolding flip pack
send_ack seq e = record e { send_buf = e.send_buf ++ pack DataType.ack (flip seq) [] }

unfoldable pub handle_frame : ℕ → Frame → Engine → Outcome
unfolding advance_on send_ack handle_command_t1 handle_command_t2
handle_frame now f e = elim f.type [
  | DataType.ack ↦ advance_on now ack e
  | DataType.data_mdr ↦ handle_command_t1 now f.payload (send_ack f.seq e)
  | DataType.data_mdr_no2 ↦ handle_command_t2 now f.payload (send_ack f.seq e)
  | _ ↦ quiet e
]

abbrev put_recv : Engine → List ℕ → Engine
put_recv e buf = record e { recv_buf = buf }

-- What is left of a frame that was refused.
abbrev pub refused : UnpackResult → List ℕ → List ℕ → List ℕ
refused incomplete frame rest =
    if not (last_or_zero frame == end_marker) then frame ++ rest else rest
refused _ frame rest = rest

unfoldable pub take_frame : ℕ → List ℕ → List ℕ → Engine → Outcome
unfolding unpack_full handle_frame
take_frame now frame rest e = elim (unpack_full frame) [
  | ok f ↦ handle_frame now f (put_recv e rest)
  | err why ↦ quiet (put_recv e (refused why frame rest))
]

-- The buffer from its first start marker on.
unfoldable pub process_from : ℕ → List ℕ → Engine → Outcome
unfolding position take_frame
process_from now buf e = elim (position end_marker buf) [
  | none ↦ quiet (put_recv e buf)
  | some zero ↦ quiet (put_recv e (drop 1 buf))
  | some (suc end) ↦ take_frame now (take (suc (suc end)) buf) (drop (suc (suc end)) buf) e
]

unfoldable pub process_frame : ℕ → Engine → Outcome
unfolding position process_from
process_frame now e = elim (position start_marker e.recv_buf) [
  | none ↦ quiet e
  | some start ↦ process_from now (drop start e.recv_buf) e
]
