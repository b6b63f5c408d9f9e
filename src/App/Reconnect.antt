-- ===== src/App/Reconnect.antt =====
-- src/app.rs: when the application connects again by itself.
use sony_buds_tray_control.App.Connection.{
  arm_reconnect, drive_waiting, is_back, is_some, refresh_devices, rescan, teardown, wait_if,
  wait_until,
}
use sony_buds_tray_control.App.Defs.{AppCore, ConnState, Outside, at_world, reconnect_delay}
use sony_buds_tray_control.App.Invariant.{Armed}
use sony_buds_tray_control.Prelude.{
  Bool, Bool-cases, List, Option, Option-cases, Result-cases, [], arith, false, inl, inr, leb,
  list_beq_iff, nat_eq, none, refl, some, true, ◌&&◌, ◌+◌, ◌∷◌, ◌≡◌, ◌⊎◌,
}
use sony_buds_tray_control.Text.{String}
use sony_buds_tray_control.Transport.{DeviceInfo}

-- A device with this address is in the list, and its entry says that it is connected.
abbrev pub Present : String → List DeviceInfo → Type 0
Present mac [] = ⊥
Present mac (d ∷ ds) = ((d.mac ≡ mac) × (d.connected ≡ true)) ⊎ Present mac ds

is_back-Present : (mac : String) (ds : List DeviceInfo) → is_back mac ds ≡ true → Present mac ds
unfolding is_back
is_back-Present mac [] h = absurd cc
is_back-Present mac (d ∷ ds) h =
    ground (arith, list_beq_iff ⦃e = nat_eq⦄ d.mac mac, is_back-Present mac ds)

-- The state that a link is left in, by the reason for which it is lost; `none` is the user's wish.
abbrev pub left_in : Option String → ConnState
left_in none = ConnState.not_connected
left_in (some e) = ConnState.error e

module _ {W C : Type 0} where
  -- What the application attaches to: the state as it was, or a device that is back.
  abbrev pub Attaches : AppCore W C → AppCore W C → Type 0
  Attaches app app' =
      (app'.conn_state ≡ app.conn_state)
      ⊎ ((app.reconnect ≡ true)
          × ((mac : String) × (app.config.last_device ≡ some mac)
              × Present mac app'.devices
              × (app'.connected_mac ≡ some mac)
              × (app'.conn_state ≡ ConnState.connecting)))

module _ {W C : Type 0} (out : Outside W C) where
  -- Behind `teardown` reconnection is armed exactly when the link was lost, the user asked for it and
  -- there is a device to wait for, in an application whose flag was armed only under these; the engine
  -- and the address are gone, and the state is the error with the reason when the link was lost, and
  -- that of no connection when the user gave it up.
  pub teardown-reconnect :
      (why : Option String) (app : AppCore W C)
      → Armed app.config app.reconnect
      → ((teardown out why app).reconnect
          ≡ (is_some why && app.config.auto_connect && is_some app.config.last_device))
        × ((teardown out why app).engine ≡ none)
        × ((teardown out why app).connected_mac ≡ none)
        × ((teardown out why app).conn_state ≡ left_in why)
  unfolding teardown arm_reconnect
  teardown-reconnect why app armed = ground arith

  refresh_devices-attach :
      (app : AppCore W C) → (refresh_devices out app).conn_state ≡ app.conn_state
  unfolding refresh_devices
  refresh_devices-attach app = elim (Result-cases (out.list_devices app.world).0) [
    | inl (list, h) ↦ rw (refresh_devices, h) refl
    | inr (e, h) ↦ rw (refresh_devices, h) refl
  ]

  rescan-attach : (app : AppCore W C) → app.reconnect ≡ true → Attaches app (rescan out app)
  unfolding rescan
  rescan-attach app armed =
      let read = out.now app.world in
      let waiting = wait_until (read.0 + reconnect_delay) (at_world read.1 app) in
      let scanned = refresh_devices out waiting in
      elim (Option-cases app.config.last_device) [
        | inl nothing ↦ rw (rescan, nothing) (inl refl)
        | inr (mac, known) ↦ elim (Bool-cases (is_back mac scanned.devices)) [
          | inr away ↦ rw (rescan, known, away) (inl (refresh_devices-attach waiting))
          | inl back ↦
              rw (rescan, known, back)
                (inr (armed, (mac, refl, is_back-Present mac scanned.devices back, refl, refl)))
        ]
      ]

  wait_if-attach :
      (b : Bool) (app : AppCore W C) → app.reconnect ≡ b → Attaches app (wait_if out b app)
  unfolding wait_if
  wait_if-attach false app h = inl refl
  wait_if-attach true app h = elim (Bool-cases (leb app.next_reconnect (out.now app.world).0)) [
    | inr early ↦ rw (wait_if, early) (inl refl)
    | inl due ↦ rw (wait_if, due) (rescan-attach (at_world (out.now app.world).1 app) h)
  ]

  -- An application that waits starts to connect only if reconnection is armed and the device that it
  -- connected to last is in the list of devices, and connected to the computer; and it is to that device.
  -- Otherwise the state of the connection is as it was.
  pub drive_waiting-attach : (app : AppCore W C) → Attaches app (drive_waiting out app)
  unfolding drive_waiting
  drive_waiting-attach app = wait_if-attach app.reconnect app refl
