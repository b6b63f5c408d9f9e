-- ===== src/App/Invariant/Tick.antt =====
-- src/app.rs, `tick`: the order of the application.
use sony_buds_tray_control.App.Defs.{AppCore, ConnState, Outside}
use sony_buds_tray_control.App.Invariant.{Agrees, AppOk, Kept, refresh_devices-AppOk}
use sony_buds_tray_control.App.Invariant.Command.{idle_state}
use sony_buds_tray_control.App.Invariant.Connecting.{drive_connecting-Kept}
use sony_buds_tray_control.App.Invariant.Live.{drive_connected-Kept}
use sony_buds_tray_control.App.Invariant.Waiting.{attach-AppOk, drive_waiting-AppOk}
use sony_buds_tray_control.App.Tick.{
  attach_last, auto_connect, drive, scan_if, scan_pending, tick, tried, wants_auto_connect,
}
use sony_buds_tray_control.Prelude.{
  Bool, Bool-cases, Option, ap, arith, false, inl, inr, none, refl, some, subst, sym, true, ◌≡◌,
}
use sony_buds_tray_control.Text.{String}

module _ {W C : Type 0} where
  attach_last-AppOk :
      (last : Option String) (app : AppCore W C)
      → app.engine ≡ none
      → AppOk app
      → AppOk (attach_last last app)
  attach_last-AppOk none app idle good = good
  attach_last-AppOk (some mac) app idle good = attach-AppOk mac app idle good

  pub auto_connect_done :
      (app : AppCore W C) → app.auto_connect_done ≡ true → auto_connect app ≡ app
  unfolding auto_connect
  auto_connect_done app h = ground arith

  pub auto_connect_not :
      (app : AppCore W C)
      → app.auto_connect_done ≡ false
      → wants_auto_connect app ≡ false
      → auto_connect app ≡ tried app
  unfolding auto_connect
  auto_connect_not app first h = ground arith

  pub auto_connect_wanted :
      (app : AppCore W C)
      → app.auto_connect_done ≡ false
      → wants_auto_connect app ≡ true
      → auto_connect app ≡ attach_last app.config.last_device (tried app)
  unfolding auto_connect
  auto_connect_wanted app first h = ground arith

  wanted_idle : (app : AppCore W C) → wants_auto_connect app ≡ true → AppOk app → app.engine ≡ none
  wanted_idle app h good = ground arith

  auto_connect-AppOk : (app : AppCore W C) → AppOk app → AppOk (auto_connect app)
  unfolding auto_connect
  auto_connect-AppOk app good = elim (Bool-cases app.auto_connect_done) [
    | inl done' ↦ subst AppOk (sym (auto_connect_done app done')) good
    | inr first ↦ elim (Bool-cases (wants_auto_connect app)) [
      | inr no' ↦ subst AppOk (sym (auto_connect_not app first no')) good
      | inl yes' ↦
          subst AppOk (sym (auto_connect_wanted app first yes'))
            (attach_last-AppOk app.config.last_device (tried app) (wanted_idle app yes' good) good)
    ]
  ]

module _ {W C : Type 0} (out : Outside W C) where
  drive-Kept :
      (app : AppCore W C) (state : ConnState)
      → app.conn_state ≡ state
      → AppOk app
      → Kept (drive out app)
  unfolding drive
  drive-Kept app ConnState.connected h good = rw (drive, h) (drive_connected-Kept out app h good)
  drive-Kept app ConnState.connecting h good =
      let here = subst (λ s. Agrees s app.engine app.reconnect app.connected_mac) h good.0 in
      rw (drive, h) (drive_connecting-Kept out app here.0 good.2)
  drive-Kept app ConnState.not_connected h good =
      rw (drive, h) (drive_waiting-AppOk out app (ap idle_state h) good)
  drive-Kept app (ConnState.error e) h good =
      rw (drive, h) (drive_waiting-AppOk out app (ap idle_state h) good)

  scan_if-AppOk : (b : Bool) (app : AppCore W C) → AppOk app → AppOk (scan_if out b app)
  unfolding scan_if
  scan_if-AppOk false app good = good
  scan_if-AppOk true app good =
      refresh_devices-AppOk out (record app { refresh_pending = false }) good

  scan_pending-AppOk : (app : AppCore W C) → AppOk app → AppOk (scan_pending out app)
  unfolding scan_pending
  scan_pending-AppOk app good = scan_if-AppOk app.refresh_pending app good

  -- A tick never panics in an application in order, and leaves it in order, whatever the adapter, the
  -- transport, the clock and the device do: there is an engine exactly when the application says that it
  -- is connected, its engine is in order, the address is known while connecting, and reconnection is
  -- armed only if the user asked for it and there is a device to wait for.
  pub tick-AppOk : (app : AppCore W C) → AppOk app → Kept (tick out app)
  unfolding tick
  tick-AppOk app good =
      let app' = auto_connect (scan_pending out app) in
      drive-Kept app' app'.conn_state refl
        (auto_connect-AppOk (scan_pending out app) (scan_pending-AppOk app good))
