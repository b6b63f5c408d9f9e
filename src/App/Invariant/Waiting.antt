-- ===== src/App/Invariant/Waiting.antt =====
-- src/app.rs, `tick`: the order of the application while it waits.
use sony_buds_tray_control.App.Connection.{
  attach, drive_waiting, is_back, refresh_devices, rescan, wait_if, wait_until,
}
use sony_buds_tray_control.App.Defs.{AppCore, Outside, at_world, reconnect_delay}
use sony_buds_tray_control.App.Invariant.{AppOk, refresh_devices-AppOk}
use sony_buds_tray_control.App.Invariant.Command.{Agrees-idle, idle_state}
use sony_buds_tray_control.Prelude.{
  Bool, Bool-cases, Option-cases, Result-cases, false, inl, inr, leb, none, refl, true, ◌+◌, ◌∙◌,
  ◌≡◌,
}
use sony_buds_tray_control.Text.{String}

module _ {W C : Type 0} where
  pub attach-AppOk :
      (mac : String) (app : AppCore W C) → app.engine ≡ none → AppOk app → AppOk (attach mac app)
  attach-AppOk mac app idle good = ((idle, refl), good.1, good.2)

module _ {W C : Type 0} (out : Outside W C) where
  refresh_devices-engine : (app : AppCore W C) → (refresh_devices out app).engine ≡ app.engine
  unfolding refresh_devices
  refresh_devices-engine app = elim (Result-cases (out.list_devices app.world).0) [
    | inl (list, h) ↦ rw (refresh_devices, h) refl
    | inr (e, h) ↦ rw (refresh_devices, h) refl
  ]

  rescan-AppOk :
      (app : AppCore W C) → idle_state app.conn_state ≡ true → AppOk app → AppOk (rescan out app)
  unfolding rescan
  rescan-AppOk app idle good =
      let read = out.now app.world in
      let waiting = wait_until (read.0 + reconnect_delay) (at_world read.1 app) in
      let scanned = refresh_devices out waiting in
      elim (Option-cases app.config.last_device) [
        | inl nothing ↦ rw (rescan, nothing) good
        | inr (mac, known) ↦ elim (Bool-cases (is_back mac scanned.devices)) [
          | inr away ↦ rw (rescan, known, away) (refresh_devices-AppOk out waiting good)
          | inl back ↦
              rw (rescan, known, back)
                (attach-AppOk mac scanned
                  (refresh_devices-engine waiting
                    ∙ Agrees-idle app.conn_state app.engine app.reconnect app.connected_mac idle
                        good.0)
                  (refresh_devices-AppOk out waiting good))
        ]
      ]

  wait_if-AppOk :
      (b : Bool) (app : AppCore W C)
      → idle_state app.conn_state ≡ true
      → AppOk app
      → AppOk (wait_if out b app)
  unfolding wait_if
  wait_if-AppOk false app idle good = good
  wait_if-AppOk true app idle good =
      let app' = at_world (out.now app.world).1 app in
      elim (Bool-cases (leb app.next_reconnect (out.now app.world).0)) [
        | inr early ↦ rw (wait_if, early) good
        | inl due ↦ rw (wait_if, due) (rescan-AppOk app' idle good)
      ]

  pub drive_waiting-AppOk :
      (app : AppCore W C)
      → idle_state app.conn_state ≡ true
      → AppOk app
      → AppOk (drive_waiting out app)
  unfolding drive_waiting
  drive_waiting-AppOk app idle good = wait_if-AppOk app.reconnect app idle good
