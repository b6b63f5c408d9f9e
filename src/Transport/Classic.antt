-- ===== src/Transport/Classic.antt =====
-- src/transport/classic.rs: the RFCOMM transport over a socket.
pub mod Address
pub mod Stream
use sony_buds_tray_control.Prelude.{
  Bool, List, Option, Result, [], err, false, if◌then◌else◌, length, none, not, ok, some, suc, true,
  zero, ℕ, ◌++◌, ◌-◌, ◌==◌, ◌∷◌,
}
use sony_buds_tray_control.Transport.{PollStatus, Transport, TransportError}

-- `std::io::ErrorKind`, as far as it is told apart.
pub data ErrorKind : Type 0 where
  timed_out would_block broken_pipe connection_reset connection_aborted : ErrorKind
  not_connected other : ErrorKind

unfoldable pub map_io_error : ErrorKind → TransportError
map_io_error ErrorKind.timed_out = TransportError.timed_out
map_io_error ErrorKind.would_block = TransportError.timed_out
map_io_error ErrorKind.broken_pipe = TransportError.closed
map_io_error ErrorKind.connection_reset = TransportError.closed
map_io_error ErrorKind.connection_aborted = TransportError.closed
map_io_error ErrorKind.not_connected = TransportError.no_connection
map_io_error ErrorKind.other = TransportError.net

-- The operations of a connected socket whose state is an `S`. `read_one` waits for a byte as long as
-- it may, and is `none` when that time is over.
pub record Socket (S : Type 0) : Type 0 where
  pub read : ℕ → S → Result ErrorKind (List ℕ) × S
  pub read_one : S → Option (Result ErrorKind (List ℕ)) × S
  pub write : List ℕ → S → Result ErrorKind ℕ × S

-- `reader` and `writer` are the two halves of one stream.
pub record ClassicTransport (S : Type 0) : Type 0 where
  pub stream : Option S
  pub peek : Option ℕ
  pub connected : Bool

unfoldable pub new : {S : Type 0} → ClassicTransport S
new = record { stream = none; peek = none; connected = false }

module _ {S : Type 0} where
  unfoldable pub err_connected : ClassicTransport S → TransportError
  err_connected c = if c.connected then TransportError.no_connection else TransportError.closed

  -- The end of `connect`.
  unfoldable pub attach : S → ClassicTransport S
  attach s = record { stream = some s; peek = none; connected = true }

  unfoldable pub disconnect : ClassicTransport S → ClassicTransport S
  disconnect c = record { stream = none; peek = none; connected = false }

  abbrev pub put_stream : ClassicTransport S → S → ClassicTransport S
  put_stream c s = record c { stream = some s }

  abbrev pub put_peek : ClassicTransport S → Option ℕ → ClassicTransport S
  put_peek c b = record c { peek = b }

-- What `poll_read` makes of the answer of the socket.
unfoldable pub polled :
    {S : Type 0}
    → ClassicTransport S
    → Option (Result ErrorKind (List ℕ))
    → Result TransportError PollStatus × ClassicTransport S
unfolding map_io_error
polled c none = (ok PollStatus.timeout, c)
polled c (some (ok [])) = (err TransportError.closed, c)
polled c (some (ok (b ∷ _))) = (ok PollStatus.ready, put_peek c (some b))
polled c (some (err e)) = (err (map_io_error e), c)

-- What `recv` makes of the answer of the socket, behind the byte that was peeked.
unfoldable pub received : List ℕ → Result ErrorKind (List ℕ) → Result TransportError (List ℕ)
unfolding map_io_error
received [] (ok []) = err TransportError.closed
received bytes (ok more) = ok (bytes ++ more)
received bytes (err e) = err (map_io_error e)

abbrev pub peeked : Option ℕ → List ℕ
peeked none = []
peeked (some b) = b ∷ []

-- What `send` makes of the answer of the socket.
unfoldable pub written : Result ErrorKind ℕ → Result TransportError ℕ
unfolding map_io_error
written (ok zero) = err TransportError.closed
written (ok (suc n)) = ok (suc n)
written (err e) = err (map_io_error e)

unfoldable pub is_not_ready : Result ErrorKind ℕ → Bool
is_not_ready (err ErrorKind.not_connected) = true
is_not_ready _ = false

module _ {S : Type 0} (sock : Socket S) where
  unfoldable pub poll_stream :
      ClassicTransport S → Result TransportError PollStatus × ClassicTransport S
  unfolding polled err_connected
  poll_stream c = if not c.connected then (err (err_connected c), c) else elim c.stream [
    | none ↦ (err TransportError.closed, c)
    | some s ↦ let answer = sock.read_one s in polled (put_stream c answer.1) answer.0
  ]

  -- A byte that was peeked is enough to be ready.
  unfoldable pub poll_read :
      ClassicTransport S → Result TransportError PollStatus × ClassicTransport S
  unfolding poll_stream
  poll_read c = elim c.peek [ some b ↦ (ok PollStatus.ready, c) | none ↦ poll_stream c ]

  -- `recv`, on a stream and with room for so many bytes: the byte that was peeked comes first.
  unfoldable pub recv_stream :
      ℕ → ClassicTransport S → S → Result TransportError (List ℕ) × ClassicTransport S
  unfolding received
  recv_stream zero c s = (ok [], c)
  recv_stream (suc room) c s =
      let taken = put_peek c none in
      let left = suc room - length (peeked c.peek) in
      if left == 0
      then (ok (peeked c.peek), taken)
      else (let answer = sock.read left s in
          (received (peeked c.peek) answer.0, put_stream taken answer.1))

  unfoldable pub recv : ℕ → ClassicTransport S → Result TransportError (List ℕ) × ClassicTransport S
  unfolding recv_stream
  recv room c = elim c.stream [
    | none ↦ (err TransportError.closed, c)
    | some s ↦ recv_stream room c s
  ]

  -- The write is tried again while the link is not ready, five times at most.
  unfoldable pub write_tries : ℕ → List ℕ → S → Result TransportError ℕ × S
  unfolding written is_not_ready
  write_tries zero bytes s = let answer = sock.write bytes s in (written answer.0, answer.1)
  write_tries (suc tries) bytes s =
      let answer = sock.write bytes s in
      let rest = write_tries tries bytes answer.1 in
      if is_not_ready answer.0 then rest else (written answer.0, answer.1)

  unfoldable pub send : List ℕ → ClassicTransport S → Result TransportError ℕ × ClassicTransport S
  unfolding write_tries
  send bytes c = elim c.stream [
    | none ↦ (err TransportError.closed, c)
    | some s ↦ let answer = write_tries 5 bytes s in (answer.0, put_stream c answer.1)
  ]

  -- The transport, as the engine uses it.
  abbrev pub classic_wire : Transport (ClassicTransport S)
  classic_wire = record { poll_read = poll_read; recv = recv; send = send }
