-- ===== src/App/Invariant/Live.antt =====
-- src/app.rs, `tick`: the order of the application while it is connected.
use sony_buds_tray_control.App.Connection.{is_some}
use sony_buds_tray_control.App.Defs.{AppCore, ConnState, Link, Outside, sync_interval}
use sony_buds_tray_control.App.Invariant.{Agrees, AppOk, Kept, LinkOk, live-ok, teardown-AppOk}
use sony_buds_tray_control.App.Invariant.Command.{Requested, request_sync-Requested, requested}
use sony_buds_tray_control.App.Tick.{
  Turn, auto_commit, drive_connected, finish, finished, handle_events, periodic_sync, poll_engine,
  poll_rounds, seen, sync_now, then_do, turn_at,
}
use sony_buds_tray_control.Device.Engine.{DeviceEvent, Engine, is_ready}
use sony_buds_tray_control.Device.Engine.Build.CommitTotal.{request_commit-Started}
use sony_buds_tray_control.Device.Engine.Build.Keeps.{request_commit-Few}
use sony_buds_tray_control.Device.Engine.Build.Request.{request_commit, request_sync}
use sony_buds_tray_control.Device.Engine.Invariant.{EngineOk}
use sony_buds_tray_control.Device.Engine.Poll.{poll}
use sony_buds_tray_control.Device.Engine.Poll.Preserve.{poll-BandsOk, poll-EngineOk}
use sony_buds_tray_control.Device.Engine.Stable.{BandsOk}
use sony_buds_tray_control.Device.Properties.{is_dirty}
use sony_buds_tray_control.Prelude.{
  Bool-cases, List, Option, Option-cases, [], arith, false, inl, inr, leb, none, not, refl, some,
  subst, suc, zero, ℕ, ◌&&◌, ◌-◌, ◌∷◌, ◌≡◌,
}

request_commit-Requested :
    (now : ℕ) (e : Engine) → EngineOk e → BandsOk e → Requested (request_commit now e)
request_commit-Requested now e good few =
    requested _ (request_commit-Started now e good (inr (omega (arith, few))))
      (request_commit-Few now e few)

module _ {W C : Type 0} (out : Outside W C) where
  poll_rounds-LinkOk :
      (rounds room : ℕ) (l : Link C) (w : W)
      → LinkOk (some l)
      → LinkOk (some (poll_rounds out rounds room l w).1)
  unfolding poll_rounds
  poll_rounds-LinkOk zero room l w good = good
  poll_rounds-LinkOk (suc rounds) zero l w good = good
  poll_rounds-LinkOk (suc rounds) (suc room) l w good =
      let read = out.now w in
      let polled = poll out.wire read.0 l.engine l.conn in
      let l' : Link C = record { engine = polled.0.0; conn = polled.1 } in
      let good' : LinkOk (some l') = (
        poll-EngineOk out.wire read.0 l.engine l.conn good.0,
        poll-BandsOk out.wire read.0 l.engine l.conn good.1,
      ) in
      elim (Option-cases polled.0.1) [
        | inl silent ↦ rw (poll_rounds, silent) good'
        | inr (ev, reported) ↦
            rw (poll_rounds, reported) (poll_rounds-LinkOk rounds room l' read.1 good')
      ]

  -- In the arm for `Connected`.
  abbrev TurnOk : Turn W C → Type 0
  TurnOk t =
      LinkOk (some t.link) × (t.app.conn_state ≡ ConnState.connected) × (t.app.reconnect ≡ false)

  abbrev KeptTurn : Option (Turn W C) → Type 0
  KeptTurn none = ⊥
  KeptTurn (some t) = TurnOk t

  sync_now-KeptTurn : (t : Turn W C) → TurnOk t → KeptTurn (sync_now out t)
  unfolding sync_now
  sync_now-KeptTurn t good =
      let now = (out.now t.app.world).0 in
      let fine = request_sync-Requested now t.link.engine good.0.0 good.0.1 in
      elim (Option-cases (request_sync now t.link.engine)) [
        | inl over ↦ absurd (subst Requested over fine)
        | inr ((_, e), sent) ↦ rw (sync_now, sent) (subst Requested sent fine, good.1, good.2)
      ]

  then_do-KeptTurn :
      (t : Option (Turn W C)) (f : Turn W C → Option (Turn W C))
      → ((t' : Turn W C) → TurnOk t' → KeptTurn (f t'))
      → KeptTurn t
      → KeptTurn (then_do t f)
  then_do-KeptTurn none f h good = absurd good
  then_do-KeptTurn (some t) f h good = h t good

  handle_events-KeptTurn :
      (evs : List DeviceEvent) (t : Turn W C) → TurnOk t → KeptTurn (handle_events out evs t)
  unfolding handle_events
  handle_events-KeptTurn [] t good = good
  handle_events-KeptTurn (DeviceEvent.init_ok ∷ evs) t good =
      then_do-KeptTurn _ (handle_events out evs) (handle_events-KeptTurn evs)
        (sync_now-KeptTurn (seen t) good)
  handle_events-KeptTurn (DeviceEvent.error e ∷ evs) t good = good
  handle_events-KeptTurn (DeviceEvent.disconnected ∷ evs) t good = good
  handle_events-KeptTurn (_ ∷ evs) t good = handle_events-KeptTurn evs (seen t) good

  auto_commit-KeptTurn : (t : Turn W C) → TurnOk t → KeptTurn (auto_commit out t)
  unfolding auto_commit
  auto_commit-KeptTurn t good =
      let now = (out.now t.app.world).0 in
      let fine = request_commit-Requested now t.link.engine good.0.0 good.0.1 in
      elim (Bool-cases
        (not (is_some t.fatal) && is_ready t.link.engine && is_dirty t.link.engine.props)) [
          | inr no' ↦ rw (auto_commit, no') good
          | inl yes' ↦ elim (Option-cases (request_commit now t.link.engine)) [
            | inl over ↦ absurd (subst Requested over fine)
            | inr ((_, e), sent) ↦
                rw (auto_commit, yes', sent) (subst Requested sent fine, good.1, good.2)
          ]
        ]

  periodic_sync-KeptTurn : (t : Turn W C) → TurnOk t → KeptTurn (periodic_sync out t)
  unfolding periodic_sync
  periodic_sync-KeptTurn t good =
      elim (Bool-cases (not (is_some t.fatal) && is_ready t.link.engine)) [
        | inr no' ↦ rw (periodic_sync, no') good
        | inl yes' ↦
            elim (Bool-cases (leb sync_interval ((out.now t.app.world).0 - t.app.last_sync))) [
              | inr early ↦ rw (periodic_sync, yes', early) good
              | inl due ↦
                  rw (periodic_sync, yes', due)
                    (sync_now-KeptTurn (turn_at (out.now t.app.world).1 t) good)
            ]
      ]

  finish-AppOk : (t : Turn W C) → TurnOk t → AppOk (finish out t)
  unfolding finish
  finish-AppOk t good = elim (Option-cases t.fatal) [
    | inl fine ↦ rw (finish, fine, good.1) ((refl, good.2), good.0, inl good.2)
    | inr (msg, lost) ↦
        rw (finish, lost)
          (teardown-AppOk out (some msg) (record t.app { engine = some t.link }) (inl good.2))
  ]

  finished-Kept : (t : Option (Turn W C)) → KeptTurn t → Kept (finished out t)
  finished-Kept none good = absurd good
  finished-Kept (some t) good = finish-AppOk t good

  not_live :
      (app : AppCore W C) → app.engine ≡ none → app.conn_state ≡ ConnState.connected → AppOk app → ⊥
  not_live app idle state good = ground arith

  pub drive_connected-Kept :
      (app : AppCore W C)
      → app.conn_state ≡ ConnState.connected
      → AppOk app
      → Kept (drive_connected out app)
  unfolding drive_connected
  drive_connected-Kept app state good = elim (Option-cases app.engine) [
    | inl idle ↦ absurd (not_live app idle state good)
    | inr (l, live) ↦
        let polled = poll_engine out l app.world in
        let t : Turn W C = record {
          link = polled.1;
          app = record app { world = polled.2 };
          fatal = none;
        } in
        let here = subst (λ s. Agrees s app.engine app.reconnect app.connected_mac) state good.0 in
        let start : TurnOk t =
          (poll_rounds-LinkOk 64 8 l app.world (live-ok app l live good), state, here.1) in
        rw (drive_connected, live)
          (finished-Kept _ (
            then_do-KeptTurn _ (periodic_sync out) periodic_sync-KeptTurn (
              then_do-KeptTurn _ (auto_commit out) auto_commit-KeptTurn
                (handle_events-KeptTurn polled.0 t start))))
  ]
