-- ===== src/App/Connection.antt =====
-- src/app.rs: the device list, `teardown`, `arm_reconnect`, and the way from `Connecting` into a
-- connection. `none` is a panic.
use sony_buds_tray_control.App.Defs.{
  AppCore, ConnState, Outside, at_world, conn_state_str, connect_timeout, engine_error_text,
  reconnect_delay,
}
use sony_buds_tray_control.Config.{file_text}
use sony_buds_tray_control.Device.Engine.{new}
use sony_buds_tray_control.Device.Engine.Build.Request.{request_init}
use sony_buds_tray_control.Prelude.{
  Bool, List, Option, [], bool_eq, eq, err, false, if◌then◌else◌, int_eq, leb, list_eq, nat_eq,
  none, ok, option_eq, some, true, ℕ, ◌&&◌, ◌++◌, ◌+◌, ◌||◌, ◌∷◌,
}
use sony_buds_tray_control.Protocol.Enums.{enum_eq}
use sony_buds_tray_control.Text.{String}
use sony_buds_tray_control.Text.Literal.{text}
use sony_buds_tray_control.Transport.{DeviceInfo, error_text}

unfoldable pub unwrap_or_default : Option String → String
unwrap_or_default none = []
unwrap_or_default (some s) = s

abbrev pub is_some : {A : Type 0} → Option A → Bool
is_some none = false
is_some (some _) = true

-- The device is in the list, and connected.
unfoldable pub is_back : String → List DeviceInfo → Bool
is_back mac [] = false
is_back mac (d ∷ ds) = (eq d.mac mac && d.connected) || is_back mac ds

module _ {W C : Type 0} where
  abbrev repaint : AppCore W C → AppCore W C
  repaint app = record app { menu_dirty = true }

  abbrev pub repainted : Option (AppCore W C) → Option (AppCore W C)
  repainted none = none
  repainted (some app) = some (repaint app)

  abbrev pub attach : String → AppCore W C → AppCore W C
  attach mac app = record app {
    connected_mac = some mac;
    conn_state = ConnState.connecting;
    menu_dirty = true;
  }

  abbrev pub wait_until : ℕ → AppCore W C → AppCore W C
  wait_until at app = record app { next_reconnect = at }

module _ {W C : Type 0} (out : Outside W C) where
  abbrev pub save : AppCore W C → AppCore W C
  save app = record app { world = out.write_config (file_text app.config) app.world }

  unfoldable pub refresh_devices : AppCore W C → AppCore W C
  refresh_devices app =
      let answer = out.list_devices app.world in
      elim answer.0 [
        | ok list ↦ record app { devices = list; menu_dirty = true; world = answer.1 }
        | err e ↦ record app {
          last_error = some (text "Device scan failed: " ++ error_text e);
          menu_dirty = true;
          world = answer.1;
        }
      ]

  unfoldable pub arm_reconnect : AppCore W C → AppCore W C
  arm_reconnect app =
      let read = out.now app.world in
      if app.config.auto_connect && is_some app.config.last_device
      then record app {
        reconnect = true;
        next_reconnect = read.0 + reconnect_delay;
        menu_dirty = true;
        world = read.1;
      }
      else app

  abbrev dropped : ConnState → AppCore W C → AppCore W C
  dropped state app = record app { engine = none; connected_mac = none; conn_state = state }

  -- An error says that the link was lost.
  unfoldable pub teardown : Option String → AppCore W C → AppCore W C
  unfolding arm_reconnect
  teardown (some e) app = record (arm_reconnect (dropped (ConnState.error e) app)) {
    menu_dirty = true;
  }
  teardown none app = record (dropped ConnState.not_connected app) {
    reconnect = false;
    menu_dirty = true;
  }

  -- `conn_state = Error(..)` with `last_error`, and reconnection armed.
  unfoldable pub fail_connect : String → AppCore W C → AppCore W C
  unfolding arm_reconnect conn_state_str
  fail_connect e app =
      let state = ConnState.error e in
      arm_reconnect (record app { conn_state = state; last_error = some (conn_state_str state) })

  -- The engine is new, and its initialisation is requested.
  unfoldable pub start_engine : C → AppCore W C → Option (AppCore W C)
  unfolding request_init engine_error_text
  start_engine c app =
      let read = out.now app.world in
      let app' = at_world read.1 app in
      elim (request_init read.0 new) [
        | none ↦ none
        | some (err e, _) ↦
            some (record app' { conn_state = ConnState.error (engine_error_text e) })
        | some (ok _, e) ↦ some (record app' {
          engine = some (record { engine = e; conn = c });
          conn_state = ConnState.connected;
          reconnect = false;
        })
      ]

  unfoldable pub connect_with : C → AppCore W C → Option (AppCore W C)
  unfolding start_engine fail_connect unwrap_or_default error_text
  connect_with c app =
      let mac = unwrap_or_default app.connected_mac in
      let (answer, c', w) = out.connect_within connect_timeout mac c app.world in
      let app' = at_world w app in
      elim answer [
        | none ↦ some (fail_connect (text "Connect timed out after 30s") app')
        | some r ↦ elim r [
          | ok _ ↦ start_engine c' app'
          | err e ↦ some (fail_connect (text "Connect failed: " ++ error_text e) app')
        ]
      ]

  -- The arm of `tick` for `Connecting`.
  unfoldable pub drive_connecting : AppCore W C → Option (AppCore W C)
  unfolding connect_with fail_connect
  drive_connecting app =
      let created = out.create app.transport_kind app.world in
      let app' = at_world created.1 app in
      repainted (elim created.0 [ ok c ↦ connect_with c app' | err e ↦ some (fail_connect e app') ])

  -- The device list is read again, and the device is attached to if it is back.
  unfoldable pub rescan : AppCore W C → AppCore W C
  unfolding refresh_devices is_back
  rescan app =
      let read = out.now app.world in
      let waiting = wait_until (read.0 + reconnect_delay) (at_world read.1 app) in
      elim app.config.last_device [
        | none ↦ waiting
        | some mac ↦
            let scanned = refresh_devices waiting in
            if is_back mac scanned.devices then attach mac scanned else scanned
      ]

  -- When reconnection is armed, the device is looked for every so often.
  unfoldable pub wait_if : Bool → AppCore W C → AppCore W C
  unfolding rescan
  wait_if false app = app
  wait_if true app =
      let read = out.now app.world in
      let app' = at_world read.1 app in if leb app.next_reconnect read.0 then rescan app' else app'

  -- The arm of `tick` for `NotConnected` and `Error`.
  unfoldable pub drive_waiting : AppCore W C → AppCore W C
  unfolding wait_if
  drive_waiting app = wait_if app.reconnect app
