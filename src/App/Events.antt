-- ===== src/App/Events.antt =====
-- src/app.rs, `poll_engine`: how much it does in a tick.
use sony_buds_tray_control.App.Defs.{Link, Outside}
use sony_buds_tray_control.App.Tick.{poll_engine, poll_rounds}
use sony_buds_tray_control.Device.Engine.Poll.{poll}
use sony_buds_tray_control.Prelude.{Option-cases, arith, inl, inr, length, suc, zero, ℕ, ◌≤◌}

module _ {W C : Type 0} (out : Outside W C) where
  poll_rounds-length :
      (rounds room : ℕ) (l : Link C) (w : W) → length (poll_rounds out rounds room l w).0 ≤ room
  unfolding poll_rounds
  poll_rounds-length zero room l w = omega arith
  poll_rounds-length (suc rounds) zero l w = omega arith
  poll_rounds-length (suc rounds) (suc room) l w =
      let read = out.now w in
      let polled = poll out.wire read.0 l.engine l.conn in
      let l' : Link C = record { engine = polled.0.0; conn = polled.1 } in
      elim (Option-cases polled.0.1) [
        | inl silent ↦ rw (poll_rounds, silent) (omega arith)
        | inr (ev, reported) ↦
            rw (poll_rounds, reported) (omega (arith, poll_rounds-length rounds room l' read.1))
      ]

  -- A tick takes at most eight events from the engine, however many the device sends.
  pub poll_engine-length : (l : Link C) (w : W) → length (poll_engine out l w).0 ≤ 8
  unfolding poll_engine
  poll_engine-length l w = poll_rounds-length 64 8 l w
