-- ===== src/App/Tick.antt =====
-- src/app.rs: `poll_engine` and `tick`. `none` is a panic: of `expect("connected")`, or of a builder.
use sony_buds_tray_control.App.Connection.{
  attach, drive_connecting, drive_waiting, is_some, refresh_devices, teardown,
}
use sony_buds_tray_control.App.Defs.{
  AppCore, ConnState, Link, Outside, at_world, engine_error_text, is_not_connected, sync_interval,
}
use sony_buds_tray_control.Device.Engine.{DeviceEvent, is_ready}
use sony_buds_tray_control.Device.Engine.Build.Request.{request_commit, request_sync}
use sony_buds_tray_control.Device.Engine.Poll.{poll}
use sony_buds_tray_control.Device.Properties.{is_dirty}
use sony_buds_tray_control.Prelude.{
  Bool, List, Option, [], false, if◌then◌else◌, leb, none, not, some, suc, true, zero, ℕ, ◌&&◌,
  ◌++◌, ◌-◌, ◌∷◌,
}
use sony_buds_tray_control.Text.{String}
use sony_buds_tray_control.Text.Literal.{text}

-- The engine and the application in the arm for `Connected`, and the reason to give up if there is one.
pub record Turn (W C : Type 0) : Type 0 where
  pub link : Link C
  pub app : AppCore W C
  pub fatal : Option String

abbrev pub then_do : {T : Type 0} → Option T → (T → Option T) → Option T
then_do none f = none
then_do (some t) f = f t

module _ {W C : Type 0} where
  abbrev pub wants_auto_connect : AppCore W C → Bool
  wants_auto_connect app =
      app.config.auto_connect && is_not_connected app.conn_state && not (is_some app.connected_mac)

  abbrev pub tried : AppCore W C → AppCore W C
  tried app = record app { auto_connect_done = true }

  abbrev pub attach_last : Option String → AppCore W C → AppCore W C
  attach_last none app = app
  attach_last (some mac) app = attach mac app

  -- The last device is connected to once, at the start.
  unfoldable pub auto_connect : AppCore W C → AppCore W C
  auto_connect app =
      if app.auto_connect_done
      then app
      else if wants_auto_connect app
      then attach_last app.config.last_device (tried app)
      else tried app

  abbrev pub turn_at : W → Turn W C → Turn W C
  turn_at w t = record t { app = at_world w t.app }

  abbrev pub seen : Turn W C → Turn W C
  seen t = record t { app = record t.app { menu_dirty = true } }

module _ {W C : Type 0} (out : Outside W C) where
  -- `poll_engine`: so many rounds at most, and so many events at most. The clock is read in each round.
  unfoldable pub poll_rounds : ℕ → ℕ → Link C → W → List DeviceEvent × Link C × W
  unfolding poll
  poll_rounds zero room l w = ([], l, w)
  poll_rounds (suc rounds) zero l w = ([], l, w)
  poll_rounds (suc rounds) (suc room) l w =
      let read = out.now w in
      let polled = poll out.wire read.0 l.engine l.conn in
      let l' : Link C = record { engine = polled.0.0; conn = polled.1 } in
      elim polled.0.1 [
        | none ↦ ([], l', read.1)
        | some ev ↦ let rest = poll_rounds rounds room l' read.1 in (ev ∷ rest.0, rest.1, rest.2)
      ]

  unfoldable pub poll_engine : Link C → W → List DeviceEvent × Link C × W
  unfolding poll_rounds
  poll_engine = poll_rounds 64 8

  -- `let _ = engine.request_sync(); self.last_sync = Instant::now()`.
  unfoldable pub sync_now : Turn W C → Option (Turn W C)
  unfolding request_sync
  sync_now t =
      let read = out.now t.app.world in
      elim (request_sync read.0 t.link.engine) [
        | none ↦ none
        | some (_, e) ↦
            let again = out.now read.1 in
            some (record t {
              link = record t.link { engine = e };
              app = record t.app { last_sync = again.0; world = again.1 };
            })
      ]

  unfoldable pub handle_events : List DeviceEvent → Turn W C → Option (Turn W C)
  unfolding sync_now engine_error_text
  handle_events [] t = some t
  handle_events (ev ∷ evs) t =
      let t' = seen t in
      let next = handle_events evs in
      elim ev [
        | DeviceEvent.init_ok ↦ then_do (sync_now t') next
        | DeviceEvent.error e ↦
            some (record t' { fatal = some (text "Device error: " ++ engine_error_text e) })
        | DeviceEvent.disconnected ↦ some (record t' { fatal = some (text "Connection lost") })
        | _ ↦ next t'
      ]

  -- The values that changed are sent when the engine is idle.
  unfoldable pub auto_commit : Turn W C → Option (Turn W C)
  unfolding is_ready is_dirty request_commit
  auto_commit t =
      if not (is_some t.fatal) && is_ready t.link.engine && is_dirty t.link.engine.props
      then (let read = out.now t.app.world in
          elim (request_commit read.0 t.link.engine) [
            | none ↦ none
            | some (_, e) ↦ some (record t {
              link = record t.link { engine = e };
              app = record t.app { world = read.1 };
            })
          ])
      else some t

  unfoldable pub periodic_sync : Turn W C → Option (Turn W C)
  unfolding is_ready sync_now
  periodic_sync t =
      if not (is_some t.fatal) && is_ready t.link.engine
      then (let read = out.now t.app.world in
          let t' = turn_at read.1 t in
          if leb sync_interval (read.0 - t.app.last_sync) then sync_now t' else some t')
      else some t

  -- The engine goes back into the application, or is torn down.
  unfoldable pub finish : Turn W C → AppCore W C
  unfolding teardown
  finish t =
      let app' : AppCore W C = record t.app { engine = some t.link } in
      elim t.fatal [ none ↦ app' | some msg ↦ teardown out (some msg) app' ]

  abbrev pub finished : Option (Turn W C) → Option (AppCore W C)
  finished none = none
  finished (some t) = some (finish t)

  -- The arm of `tick` for `Connected`.
  unfoldable pub drive_connected : AppCore W C → Option (AppCore W C)
  unfolding poll_engine handle_events auto_commit periodic_sync finish
  drive_connected app = elim app.engine [
    | none ↦ none
    | some l ↦
        let (events, l', w) = poll_engine l app.world in
        let t : Turn W C = record { link = l'; app = record app { world = w }; fatal = none } in
        finished (then_do (then_do (handle_events events t) auto_commit) periodic_sync)
  ]

  unfoldable pub scan_if : Bool → AppCore W C → AppCore W C
  unfolding refresh_devices
  scan_if false app = app
  scan_if true app = refresh_devices out (record app { refresh_pending = false })

  unfoldable pub scan_pending : AppCore W C → AppCore W C
  unfolding scan_if
  scan_pending app = scan_if app.refresh_pending app

  unfoldable pub drive : AppCore W C → Option (AppCore W C)
  unfolding drive_connecting drive_connected drive_waiting
  drive app = elim app.conn_state [
    | ConnState.connecting ↦ drive_connecting out app
    | ConnState.connected ↦ drive_connected app
    | _ ↦ some (drive_waiting out app)
  ]

  unfoldable pub tick : AppCore W C → Option (AppCore W C)
  unfolding scan_pending auto_connect drive
  tick app = drive (auto_connect (scan_pending app))
