-- ===== src/App/Fresh.antt =====
-- src/app.rs: that `menu_dirty` tells of every change of the state of the connection.
use sony_buds_tray_control.App.Command.{apply_command, sync}
use sony_buds_tray_control.App.Connection.{
  drive_connecting, drive_waiting, is_back, is_some, refresh_devices, repainted, rescan, teardown,
  wait_if, wait_until,
}
use sony_buds_tray_control.App.Defs.{
  AppCore, ConnState, Link, Outside, UiCommand, at_world, reconnect_delay, sync_interval,
}
use sony_buds_tray_control.App.Invariant.Tick.{
  auto_connect_done, auto_connect_not, auto_connect_wanted,
}
use sony_buds_tray_control.App.Tick.{
  Turn, attach_last, auto_commit, auto_connect, drive, drive_connected, finish, finished,
  handle_events, periodic_sync, poll_engine, scan_if, scan_pending, seen, sync_now, then_do, tick,
  tried, turn_at, wants_auto_connect,
}
use sony_buds_tray_control.Device.Engine.{DeviceEvent, is_ready}
use sony_buds_tray_control.Device.Engine.Build.Request.{request_commit, request_sync}
use sony_buds_tray_control.Device.Engine.Runner.{start}
use sony_buds_tray_control.Device.Properties.{is_dirty}
use sony_buds_tray_control.Prelude.{
  Bool, Bool-cases, List, Option, Option-cases, Result-cases, [], false, inl, inr, leb, none, not,
  refl, some, subst, sym, true, ◌&&◌, ◌+◌, ◌-◌, ◌∷◌, ◌≡◌, ◌⊎◌,
}
use sony_buds_tray_control.Text.{String}

-- The snapshot is marked as out of date, or the state of the connection is still `x`.
abbrev pub Fresh : {W C : Type 0} → ConnState → AppCore W C → Type 0
Fresh x app = (app.menu_dirty ≡ true) ⊎ (app.conn_state ≡ x)

-- The same of what is left, when there is no panic.
abbrev pub LeavesFresh : {W C : Type 0} → ConnState → Option (AppCore W C) → Type 0
LeavesFresh x none = Unit
LeavesFresh x (some app) = Fresh x app

abbrev TurnFresh : {W C : Type 0} → ConnState → Option (Turn W C) → Type 0
TurnFresh x none = Unit
TurnFresh x (some t) = Fresh x t.app

module _ {W C : Type 0} (out : Outside W C) (x : ConnState) where
  sync_now-TurnFresh : (t : Turn W C) → Fresh x t.app → TurnFresh x (sync_now out t)
  unfolding sync_now
  sync_now-TurnFresh t h =
      elim (Option-cases (request_sync (out.now t.app.world).0 t.link.engine)) [
        | inl over ↦ rw (sync_now, over) tt
        | inr ((_, e), sent) ↦ rw (sync_now, sent) h
      ]

  then_do-TurnFresh :
      (t : Option (Turn W C)) (f : Turn W C → Option (Turn W C))
      → ((t' : Turn W C) → Fresh x t'.app → TurnFresh x (f t'))
      → TurnFresh x t
      → TurnFresh x (then_do t f)
  then_do-TurnFresh none f h start = tt
  then_do-TurnFresh (some t) f h start = h t start

  handle_events-TurnFresh :
      (evs : List DeviceEvent) (t : Turn W C)
      → Fresh x t.app
      → TurnFresh x (handle_events out evs t)
  unfolding handle_events
  handle_events-TurnFresh [] t h = h
  handle_events-TurnFresh (DeviceEvent.init_ok ∷ evs) t h =
      then_do-TurnFresh _ (handle_events out evs) (handle_events-TurnFresh evs)
        (sync_now-TurnFresh (seen t) (inl refl))
  handle_events-TurnFresh (DeviceEvent.error e ∷ evs) t h = inl refl
  handle_events-TurnFresh (DeviceEvent.disconnected ∷ evs) t h = inl refl
  handle_events-TurnFresh (_ ∷ evs) t h = handle_events-TurnFresh evs (seen t) (inl refl)

  auto_commit-TurnFresh : (t : Turn W C) → Fresh x t.app → TurnFresh x (auto_commit out t)
  unfolding auto_commit
  auto_commit-TurnFresh t h =
      elim (Bool-cases
        (not (is_some t.fatal) && is_ready t.link.engine && is_dirty t.link.engine.props)) [
          | inr no' ↦ rw (auto_commit, no') h
          | inl yes' ↦ elim (Option-cases (request_commit (out.now t.app.world).0 t.link.engine)) [
            | inl over ↦ rw (auto_commit, yes', over) tt
            | inr ((_, e), sent) ↦ rw (auto_commit, yes', sent) h
          ]
        ]

  periodic_sync-TurnFresh : (t : Turn W C) → Fresh x t.app → TurnFresh x (periodic_sync out t)
  unfolding periodic_sync
  periodic_sync-TurnFresh t h =
      elim (Bool-cases (not (is_some t.fatal) && is_ready t.link.engine)) [
        | inr no' ↦ rw (periodic_sync, no') h
        | inl yes' ↦
            elim (Bool-cases (leb sync_interval ((out.now t.app.world).0 - t.app.last_sync))) [
              | inr early ↦ rw (periodic_sync, yes', early) h
              | inl due ↦
                  rw (periodic_sync, yes', due)
                    (sync_now-TurnFresh (turn_at (out.now t.app.world).1 t) h)
            ]
      ]

  finished-LeavesFresh : (t : Option (Turn W C)) → TurnFresh x t → LeavesFresh x (finished out t)
  unfolding finish teardown
  finished-LeavesFresh none h = tt
  finished-LeavesFresh (some t) h = elim (Option-cases t.fatal) [
    | inl fine ↦ rw (finish, fine) h
    | inr (msg, lost) ↦ rw (finish, lost) (inl refl)
  ]

  drive_connected-LeavesFresh :
      (app : AppCore W C) → Fresh x app → LeavesFresh x (drive_connected out app)
  unfolding drive_connected
  drive_connected-LeavesFresh app h = elim (Option-cases app.engine) [
    | inl idle ↦ rw (drive_connected, idle) tt
    | inr (l, live) ↦
        let polled = poll_engine out l app.world in
        let t : Turn W C = record {
          link = polled.1;
          app = record app { world = polled.2 };
          fatal = none;
        } in
        rw (drive_connected, live)
          (finished-LeavesFresh _ (
            then_do-TurnFresh _ (periodic_sync out) periodic_sync-TurnFresh (
              then_do-TurnFresh _ (auto_commit out) auto_commit-TurnFresh
                (handle_events-TurnFresh polled.0 t h))))
  ]

  repainted-LeavesFresh : (r : Option (AppCore W C)) → LeavesFresh x (repainted r)
  repainted-LeavesFresh none = tt
  repainted-LeavesFresh (some app) = inl refl

  drive_connecting-LeavesFresh : (app : AppCore W C) → LeavesFresh x (drive_connecting out app)
  unfolding drive_connecting
  drive_connecting-LeavesFresh app = repainted-LeavesFresh _

  refresh_devices-Fresh : (app : AppCore W C) → Fresh x (refresh_devices out app)
  unfolding refresh_devices
  refresh_devices-Fresh app = elim (Result-cases (out.list_devices app.world).0) [
    | inl (list, h) ↦ rw (refresh_devices, h) (inl refl)
    | inr (e, h) ↦ rw (refresh_devices, h) (inl refl)
  ]

  rescan-Fresh : (app : AppCore W C) → Fresh x app → Fresh x (rescan out app)
  unfolding rescan
  rescan-Fresh app h =
      let read = out.now app.world in
      let waiting = wait_until (read.0 + reconnect_delay) (at_world read.1 app) in
      let scanned = refresh_devices out waiting in
      elim (Option-cases app.config.last_device) [
        | inl nothing ↦ rw (rescan, nothing) h
        | inr (mac, known) ↦ elim (Bool-cases (is_back mac scanned.devices)) [
          | inr away ↦ rw (rescan, known, away) (refresh_devices-Fresh waiting)
          | inl back ↦ rw (rescan, known, back) (inl refl)
        ]
      ]

  wait_if-Fresh : (b : Bool) (app : AppCore W C) → Fresh x app → Fresh x (wait_if out b app)
  unfolding wait_if
  wait_if-Fresh false app h = h
  wait_if-Fresh true app h = elim (Bool-cases (leb app.next_reconnect (out.now app.world).0)) [
    | inr early ↦ rw (wait_if, early) h
    | inl due ↦ rw (wait_if, due) (rescan-Fresh (at_world (out.now app.world).1 app) h)
  ]

  drive-LeavesFresh :
      (app : AppCore W C) (state : ConnState)
      → app.conn_state ≡ state
      → Fresh x app
      → LeavesFresh x (drive out app)
  unfolding drive drive_waiting
  drive-LeavesFresh app ConnState.connected s h = rw (drive, s) (drive_connected-LeavesFresh app h)
  drive-LeavesFresh app ConnState.connecting s h = rw (drive, s) (drive_connecting-LeavesFresh app)
  drive-LeavesFresh app ConnState.not_connected s h =
      rw (drive, s) (wait_if-Fresh app.reconnect app h)
  drive-LeavesFresh app (ConnState.error e) s h = rw (drive, s) (wait_if-Fresh app.reconnect app h)

  attach_last-Fresh :
      (last : Option String) (app : AppCore W C) → Fresh x app → Fresh x (attach_last last app)
  attach_last-Fresh none app h = h
  attach_last-Fresh (some mac) app h = inl refl

  auto_connect-Fresh : (app : AppCore W C) → Fresh x app → Fresh x (auto_connect app)
  unfolding auto_connect
  auto_connect-Fresh app h = elim (Bool-cases app.auto_connect_done) [
    | inl done' ↦ subst (Fresh x) (sym (auto_connect_done app done')) h
    | inr first ↦ elim (Bool-cases (wants_auto_connect app)) [
      | inr no' ↦ subst (Fresh x) (sym (auto_connect_not app first no')) h
      | inl yes' ↦
          subst (Fresh x) (sym (auto_connect_wanted app first yes'))
            (attach_last-Fresh app.config.last_device (tried app) h)
    ]
  ]

  scan_if-Fresh : (b : Bool) (app : AppCore W C) → Fresh x app → Fresh x (scan_if out b app)
  unfolding scan_if
  scan_if-Fresh false app h = h
  scan_if-Fresh true app h = refresh_devices-Fresh (record app { refresh_pending = false })

  pub tick-LeavesFresh : (app : AppCore W C) → Fresh x app → LeavesFresh x (tick out app)
  unfolding tick scan_pending
  tick-LeavesFresh app h =
      let app' = auto_connect (scan_pending out app) in
      drive-LeavesFresh app' app'.conn_state refl
        (auto_connect-Fresh (scan_pending out app) (scan_if-Fresh app.refresh_pending app h))

  connect-LeavesFresh :
      (mac : String) (app : AppCore W C) (state : ConnState)
      → app.conn_state ≡ state
      → Fresh x app
      → LeavesFresh x (apply_command out (UiCommand.connect mac) app)
  unfolding apply_command
  connect-LeavesFresh mac app ConnState.connected s h = rw (apply_command, s) h
  connect-LeavesFresh mac app ConnState.connecting s h = rw (apply_command, s) h
  connect-LeavesFresh mac app ConnState.not_connected s h = rw (apply_command, s) (inl refl)
  connect-LeavesFresh mac app (ConnState.error e) s h = rw (apply_command, s) (inl refl)

  sync-LeavesFresh : (l : Link C) (app : AppCore W C) → LeavesFresh x (sync out l app)
  sync-LeavesFresh l app = elim (Option-cases (request_sync (out.now app.world).0 l.engine)) [
    | inl over ↦ rw (sync, over) tt
    | inr ((_, e), sent) ↦ rw (sync, sent) (inl refl)
  ]

  pub apply_command-LeavesFresh :
      (cmd : UiCommand) (app : AppCore W C)
      → Fresh x app
      → LeavesFresh x (apply_command out cmd app)
  unfolding apply_command
  apply_command-LeavesFresh UiCommand.refresh_devices app h = inl refl
  apply_command-LeavesFresh UiCommand.refresh_sync app h = elim (Option-cases app.engine) [
    | inl idle ↦ rw (apply_command, idle) (inl refl)
    | inr (l, live) ↦ rw (apply_command, live) (sync-LeavesFresh l app)
  ]
  apply_command-LeavesFresh (UiCommand.set_transport kind) app h = inl refl
  apply_command-LeavesFresh (UiCommand.connect mac) app h =
      connect-LeavesFresh mac app app.conn_state refl h
  apply_command-LeavesFresh UiCommand.disconnect app h = inl refl
  apply_command-LeavesFresh (UiCommand.set_auto_connect v) app h = inl refl
  apply_command-LeavesFresh UiCommand.quit app h = inl refl
  apply_command-LeavesFresh cmd app h = inl refl
