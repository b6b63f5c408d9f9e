-- ===== src/Device/Engine/Poll/Preserve.antt =====
-- src/device/engine.rs: frames and `poll`, with the order of the engine.
use sony_buds_tray_control.Device.Engine.Defs.{Engine, Wait}
use sony_buds_tray_control.Device.Engine.Dispatch.Preserve.{
  handle_command_t1-Good, handle_command_t2-Good,
}
use sony_buds_tray_control.Device.Engine.Frames.{
  flush_send_buf, handle_frame, max_frame, position, process_frame, process_from, recv_into_buffer,
  refused, send_ack, take_frame,
}
use sony_buds_tray_control.Device.Engine.Invariant.{EngineOk}
use sony_buds_tray_control.Device.Engine.Poll.{flushed, poll, process, receive}
use sony_buds_tray_control.Device.Engine.Runner.{check_deadline, start}
use sony_buds_tray_control.Device.Engine.Stable.{BandsOk, BandsOk-Stable, EngineOk-Stable, Stable}
use sony_buds_tray_control.Prelude.{
  List, Option-cases, Result, Result-cases, [], drop, err, inl, inr, none, ok, refl, some, subst,
  suc, sym, take, zero, ℕ, ◌∷◌, ◌≡◌,
}
use sony_buds_tray_control.Protocol.Enums.{DataType, data_type_enum}
use sony_buds_tray_control.Protocol.Packet.{
  Frame, UnpackResult, end_marker, start_marker, unpack_full,
}
use sony_buds_tray_control.Transport.{PollStatus, Transport, TransportError, ready, timed_out}

module _ {Good : Engine → Type 0} (stable : Stable Good) where
  send_ack-Good : (seq : ℕ) (e : Engine) → Good e → Good (send_ack seq e)
  unfolding send_ack
  send_ack-Good seq e good = stable.put_buffers e _ _ good

  handle_frame_type :
      (now : ℕ) (type : DataType) (seq : ℕ) (payload : List ℕ) (e : Engine)
      → Good e
      → Good ((handle_frame now (record { type = type; seq = seq; payload = payload }) e).0)
  unfolding handle_frame
  handle_frame_type now DataType.ack seq payload e good = stable.advanced now Wait.ack e good
  handle_frame_type now DataType.data_mdr seq payload e good =
      handle_command_t1-Good stable now payload (send_ack seq e) (send_ack-Good seq e good)
  handle_frame_type now DataType.data_mdr_no2 seq payload e good =
      handle_command_t2-Good stable now payload (send_ack seq e) (send_ack-Good seq e good)
  handle_frame_type now _ seq payload e good = good

  take_frame-ok :
      (now : ℕ) (frame rest : List ℕ) (e : Engine) (f : Frame)
      → unpack_full frame ≡ ok f
      → take_frame now frame rest e ≡ handle_frame now f (record e { recv_buf = rest })
  unfolding take_frame
  take_frame-ok now frame rest e f h = rw (take_frame, h) refl

  take_frame-err :
      (now : ℕ) (frame rest : List ℕ) (e : Engine) (why : UnpackResult)
      → unpack_full frame ≡ err why
      → take_frame now frame rest e ≡ (record e { recv_buf = refused why frame rest }, none)
  unfolding take_frame
  take_frame-err now frame rest e why h = rw (take_frame, h) refl

  take_frame-Good :
      (now : ℕ) (frame rest : List ℕ) (e : Engine) → Good e → Good ((take_frame now frame rest e).0)
  take_frame-Good now frame rest e good = elim (Result-cases (unpack_full frame)) [
    | inl (f, whole) ↦
        subst (λ o. Good o.0) (sym (take_frame-ok now frame rest e f whole))
          (handle_frame_type now f.type f.seq f.payload (record e { recv_buf = rest })
            (stable.put_buffers e rest e.send_buf good))
    | inr (why, bad) ↦
        subst (λ o. Good o.0) (sym (take_frame-err now frame rest e why bad))
          (stable.put_buffers e _ e.send_buf good)
  ]

  process_from-some :
      (now : ℕ) (buf : List ℕ) (e : Engine) (end : ℕ)
      → position end_marker buf ≡ some end
      → Good e
      → Good ((process_from now buf e).0)
  unfolding process_from
  process_from-some now buf e zero h good =
      rw (process_from, h) (stable.put_buffers e _ e.send_buf good)
  process_from-some now buf e (suc end) h good =
      rw (process_from, h)
        (take_frame-Good now (take (suc (suc end)) buf) (drop (suc (suc end)) buf) e good)

  process_from-Good :
      (now : ℕ) (buf : List ℕ) (e : Engine) → Good e → Good ((process_from now buf e).0)
  unfolding process_from
  process_from-Good now buf e good = elim (Option-cases (position end_marker buf)) [
    | inl open' ↦ rw (process_from, open') (stable.put_buffers e buf e.send_buf good)
    | inr (end, found) ↦ process_from-some now buf e end found good
  ]

  process_frame-Good : (now : ℕ) (e : Engine) → Good e → Good ((process_frame now e).0)
  unfolding process_frame
  process_frame-Good now e good = elim (Option-cases (position start_marker e.recv_buf)) [
    | inl nothing ↦ rw (process_frame, nothing) good
    | inr (start, found) ↦
        rw (process_frame, found) (process_from-Good now (drop start e.recv_buf) e good)
  ]

  process-Good : (now : ℕ) (e : Engine) → Good e → Good ((process now e).0)
  unfolding process
  process-Good now e good = elim (Option-cases (process_frame now e).1) [
    | inl silent ↦
        rw (process, silent)
          (stable.completed (process_frame now e).0 (process_frame-Good now e good))
    | inr (ev, reported) ↦ rw (process, reported) (process_frame-Good now e good)
  ]

  -- A read that succeeds leaves the engine in order.
  abbrev ReadOk : Result TransportError Engine → Type 0
  ReadOk (ok e) = Good e
  ReadOk (err _) = Unit

  module _ {C : Type 0} (t : Transport C) where
    recv-some :
        (e : Engine) (c : C) (bytes : List ℕ)
        → (t.recv max_frame c).0 ≡ ok bytes
        → Good e
        → ReadOk (recv_into_buffer t e c).0
    unfolding recv_into_buffer
    recv-some e c [] h good = rw (recv_into_buffer, h) tt
    recv-some e c (b ∷ bs) h good =
        rw (recv_into_buffer, h) (stable.put_buffers e _ e.send_buf good)

    recv_into_buffer-ReadOk : (e : Engine) (c : C) → Good e → ReadOk (recv_into_buffer t e c).0
    unfolding recv_into_buffer
    recv_into_buffer-ReadOk e c good = elim (Result-cases (t.recv max_frame c).0) [
      | inl (bytes, h) ↦ recv-some e c bytes h good
      | inr (why, h) ↦ rw (recv_into_buffer, h) tt
    ]

    receive_status :
        (now : ℕ) (e : Engine) (c : C) (status : PollStatus)
        → (t.poll_read c).0 ≡ ok status
        → Good e
        → Good ((receive t now e c).0.0)
    unfolding receive
    receive_status now e c PollStatus.timeout h good = rw (receive, h) (process-Good now e good)
    receive_status now e c ready h good =
        let c' = (t.poll_read c).1 in
        elim (Result-cases (recv_into_buffer t e c').0) [
          | inl (e', got) ↦
              rw (receive, h, got)
                (process-Good now e' (subst ReadOk got (recv_into_buffer-ReadOk e c' good)))
          | inr (why, got) ↦ rw (receive, h, got) good
        ]

    receive_error :
        (now : ℕ) (e : Engine) (c : C) (why : TransportError)
        → (t.poll_read c).0 ≡ err why
        → Good e
        → Good ((receive t now e c).0.0)
    unfolding receive
    receive_error now e c timed_out h good = rw (receive, h) (process-Good now e good)
    receive_error now e c _ h good = rw (receive, h) good

    receive-Good : (now : ℕ) (e : Engine) (c : C) → Good e → Good ((receive t now e c).0.0)
    receive-Good now e c good = elim (Result-cases (t.poll_read c).0) [
      | inl (status, h) ↦ receive_status now e c status h good
      | inr (why, h) ↦ receive_error now e c why h good
    ]

    flushed-Good : (now : ℕ) (e : Engine) (c : C) → Good e → Good ((flushed t now e c).0.0)
    unfolding flushed
    flushed-Good now e c good = elim (Option-cases (flush_send_buf t e c).error) [
      | inl done' ↦
          rw (flushed, done') (receive-Good now _ _ (stable.put_buffers e e.recv_buf _ good))
      | inr (why, failed') ↦ rw (flushed, failed') (stable.put_buffers e e.recv_buf _ good)
    ]

    pub poll-Good : (now : ℕ) (e : Engine) (c : C) → Good e → Good ((poll t now e c).0.0)
    unfolding poll
    poll-Good now e c good =
        let checked = stable.checked now e good in
        elim (Option-cases (check_deadline now e).1) [
          | inl silent ↦ rw (poll, silent) (flushed-Good now (check_deadline now e).0 c checked)
          | inr (ev, reported) ↦ rw (poll, reported) checked
        ]

module _ {C : Type 0} (t : Transport C) where
  -- One iteration of the loop keeps the engine in order, whatever the transport answers to each call
  -- and whatever bytes the device sends: the sequence number stays 0 or 1, the step in front of the
  -- task is one that was started and has a deadline, or the task has ended, and no step was resent
  -- more than three times.
  pub poll-EngineOk : (now : ℕ) (e : Engine) (c : C) → EngineOk e → EngineOk ((poll t now e c).0.0)
  poll-EngineOk now e c good = poll-Good EngineOk-Stable t now e c good

  -- One iteration of the loop leaves the equalizer with ten bands at most if it had ten at most,
  -- whatever the transport answers and whatever bytes the device sends.
  pub poll-BandsOk : (now : ℕ) (e : Engine) (c : C) → BandsOk e → BandsOk ((poll t now e c).0.0)
  poll-BandsOk now e c few = poll-Good BandsOk-Stable t now e c few
