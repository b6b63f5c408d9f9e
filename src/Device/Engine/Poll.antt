-- ===== src/Device/Engine/Poll.antt =====
-- src/device/engine.rs: `poll`, one iteration of the loop.
pub mod Preserve
use sony_buds_tray_control.Device.Engine.Defs.{Engine, EngineError, Outcome, emit, error}
use sony_buds_tray_control.Device.Engine.Frames.{flush_send_buf, process_frame, recv_into_buffer}
use sony_buds_tray_control.Device.Engine.Runner.{check_deadline, step_completed}
use sony_buds_tray_control.Prelude.{err, none, ok, some, ℕ}
use sony_buds_tray_control.Transport.{Transport, TransportError, ready, timed_out, timeout}

-- The engine, the event and the connection after an iteration.
abbrev pub Polled : Type 0 → Type 0
Polled C = Outcome × C

abbrev failed : {C : Type 0} → Engine → TransportError → C → Polled C
failed e why c = (emit e (error (EngineError.transport why)), c)

-- Steps 4 and 5: a frame that is buffered, then a task that may have ended.
unfoldable pub process : ℕ → Engine → Outcome
unfolding process_frame step_completed
process now e =
    let handled = process_frame now e in
    elim handled.1 [ some ev ↦ handled | none ↦ step_completed handled.0 ]

-- Step 3: the connection is asked for bytes. A poll that is quiet is not an error.
unfoldable pub receive : {C : Type 0} → Transport C → ℕ → Engine → C → Polled C
unfolding recv_into_buffer process
receive t now e c =
    let asked = t.poll_read c in
    elim asked.0 [
      | ok ready ↦
          let got = recv_into_buffer t e asked.1 in
          elim got.0 [ ok e' ↦ (process now e', got.1) | err why ↦ failed e why got.1 ]
      | ok timeout ↦ (process now e, asked.1)
      | err why ↦ elim why [ timed_out ↦ (process now e, asked.1) | other ↦ failed e other asked.1 ]
    ]

unfoldable pub flushed : {C : Type 0} → Transport C → ℕ → Engine → C → Polled C
unfolding flush_send_buf receive
flushed t now e c =
    let f = flush_send_buf t e c in
    let e' : Engine = record e { send_buf = f.left } in
    elim f.error [ some why ↦ failed e' why f.conn | none ↦ receive t now e' f.conn ]

unfoldable pub poll : {C : Type 0} → Transport C → ℕ → Engine → C → Polled C
unfolding check_deadline flushed
poll t now e c =
    let checked = check_deadline now e in
    elim checked.1 [ some ev ↦ (checked, c) | none ↦ flushed t now checked.0 c ]
