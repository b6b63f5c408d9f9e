-- ===== src/App/Invariant/Command.antt =====
-- src/app.rs, `apply_command`: the order of the application.
use sony_buds_tray_control.App.Command.{apply_command, put_setting, setting, sync}
use sony_buds_tray_control.App.Connection.{is_some}
use sony_buds_tray_control.App.Defs.{AppCore, ConnState, Link, Outside, UiCommand}
use sony_buds_tray_control.App.Invariant.{
  Agrees, AppOk, Armed, Kept, LinkOk, live-ok, replaced-AppOk,
}
use sony_buds_tray_control.Config.{Config}
use sony_buds_tray_control.Device.Engine.{Engine, EngineError}
use sony_buds_tray_control.Device.Engine.Build.Keeps.{Few, request_sync-Few}
use sony_buds_tray_control.Device.Engine.Build.Request.{request_sync}
use sony_buds_tray_control.Device.Engine.Build.Total.{Started, request_sync-Started}
use sony_buds_tray_control.Device.Engine.Invariant.{EngineOk}
use sony_buds_tray_control.Device.Engine.Stable.{BandsOk, gains}
use sony_buds_tray_control.Device.Properties.{Properties}
use sony_buds_tray_control.Device.State.{DeviceState}
use sony_buds_tray_control.Prelude.{
  Bool, Option, Option-cases, Result, ap, arith, false, if◌then◌else◌, inl, inr, none, not, refl,
  some, subst, true, ℕ, ◌≡◌,
}
use sony_buds_tray_control.Text.{String}

setting-gains :
    (cmd : UiCommand) (st : DeviceState) (p q : Properties)
    → setting cmd st p ≡ some q
    → gains q ≡ gains p
unfolding setting
setting-gains cmd st p q h = ground arith

module _ {W C : Type 0} where
  put_setting-AppOk :
      (cmd : UiCommand) (app : AppCore W C) → AppOk app → AppOk (put_setting cmd app)
  put_setting-AppOk cmd app good = elim (Option-cases app.engine) [
    | inl idle ↦ rw (put_setting, idle) good
    | inr (l, live) ↦ elim (Option-cases (setting cmd l.engine.state l.engine.props)) [
      | inl other ↦ rw (put_setting, live, other) good
      | inr (p, put) ↦
          let ok' = live-ok app l live good in
          let same = setting-gains cmd l.engine.state l.engine.props p put in
          let l' : Link C = record l { engine = record l.engine { props = p } } in
          rw (put_setting, live, put)
            (replaced-AppOk app l l' live (ok'.0, omega (arith, same, ok'.1)) good)
    ]
  ]

-- A request on the engine that is connected to.
abbrev pub Requested : Option (Result EngineError (Unit {0}) × Engine) → Type 0
Requested none = ⊥
Requested (some (_, e)) = EngineOk e × BandsOk e

pub requested :
    (r : Option (Result EngineError (Unit {0}) × Engine)) → Started r → Few r → Requested r
requested none h few = h
requested (some (_, e)) good few = (good, few)

pub request_sync-Requested :
    (now : ℕ) (e : Engine) → EngineOk e → BandsOk e → Requested (request_sync now e)
request_sync-Requested now e good few =
    requested _ (request_sync-Started now e good) (request_sync-Few now e few)

Armed-device :
    (c : Config) (r : Bool) (mac : String)
    → Armed c r
    → Armed (record c { last_device = some mac }) r
Armed-device c r mac (inl unarmed) = inl unarmed
Armed-device c r mac (inr (auto, known)) = inr (auto, refl)

Armed-auto :
    (v : Bool) (c : Config) (r : Bool)
    → Armed c r
    → Armed (record c { auto_connect = v }) (if not v then false else r)
Armed-auto false c r armed = inl refl
Armed-auto true c r (inl unarmed) = inl unarmed
Armed-auto true c r (inr (auto, known)) = inr (refl, known)

Agrees-auto :
    {C : Type 0} (v : Bool) (state : ConnState) (e : Option (Link C)) (r : Bool)
    (mac : Option String)
    → Agrees state e r mac
    → Agrees state e (if not v then false else r) mac
Agrees-auto true state e r mac h = h
Agrees-auto false ConnState.connected e r mac h = (h.0, refl)
Agrees-auto false ConnState.connecting e r mac h = h
Agrees-auto false ConnState.not_connected e r mac h = h
Agrees-auto false (ConnState.error _) e r mac h = h

-- Not connected to anything.
abbrev pub idle_state : ConnState → Bool
idle_state ConnState.not_connected = true
idle_state (ConnState.error _) = true
idle_state _ = false

pub Agrees-idle :
    {C : Type 0} (state : ConnState) (e : Option (Link C)) (r : Bool) (mac : Option String)
    → idle_state state ≡ true
    → Agrees state e r mac
    → e ≡ none
Agrees-idle ConnState.not_connected e r mac h good = good
Agrees-idle (ConnState.error _) e r mac h good = good
Agrees-idle ConnState.connected e r mac h good = absurd cc
Agrees-idle ConnState.connecting e r mac h good = absurd cc

module _ {W C : Type 0} (out : Outside W C) where
  sync-Kept :
      (l : Link C) (app : AppCore W C) → app.engine ≡ some l → AppOk app → Kept (sync out l app)
  sync-Kept l app live good =
      let now = (out.now app.world).0 in
      let ok' = live-ok app l live good in
      let fine = request_sync-Requested now l.engine ok'.0 ok'.1 in
      elim (Option-cases (request_sync now l.engine)) [
        | inl over ↦ absurd (subst Requested over fine)
        | inr ((_, e), sent) ↦
            rw (sync, sent)
              (replaced-AppOk app l (record l { engine = e }) live (subst Requested sent fine) good)
      ]

  attached :
      (mac : String) (app : AppCore W C)
      → idle_state app.conn_state ≡ true
      → AppOk app
      → ((app.engine ≡ none) × (is_some (some mac) ≡ true))
        × LinkOk app.engine
        × Armed (record app.config { last_device = some mac }) app.reconnect
  attached mac app idle good = (
    (Agrees-idle app.conn_state app.engine app.reconnect app.connected_mac idle good.0, refl),
    good.1,
    Armed-device app.config app.reconnect mac good.2,
  )

  connect-Kept :
      (mac : String) (app : AppCore W C) (state : ConnState)
      → app.conn_state ≡ state
      → AppOk app
      → Kept (apply_command out (UiCommand.connect mac) app)
  unfolding apply_command
  connect-Kept mac app ConnState.connected h good = rw (apply_command, h) good
  connect-Kept mac app ConnState.connecting h good = rw (apply_command, h) good
  connect-Kept mac app ConnState.not_connected h good =
      rw (apply_command, h) (attached mac app (ap idle_state h) good)
  connect-Kept mac app (ConnState.error e) h good =
      rw (apply_command, h) (attached mac app (ap idle_state h) good)

  -- A command that the user gives never panics in an application in order, and leaves it in order:
  -- there is an engine exactly when the application says that it is connected, its engine is in order,
  -- the address is known while connecting, and reconnection is armed only if the user asked for it and
  -- there is a device to wait for.
  pub apply_command-AppOk :
      (cmd : UiCommand) (app : AppCore W C) → AppOk app → Kept (apply_command out cmd app)
  unfolding apply_command
  apply_command-AppOk UiCommand.refresh_devices app good = good
  apply_command-AppOk UiCommand.refresh_sync app good = elim (Option-cases app.engine) [
    | inl idle ↦ rw (apply_command, idle) good
    | inr (l, live) ↦ rw (apply_command, live) (sync-Kept l app live good)
  ]
  apply_command-AppOk (UiCommand.set_transport kind) app good = good
  apply_command-AppOk (UiCommand.connect mac) app good =
      connect-Kept mac app app.conn_state refl good
  apply_command-AppOk UiCommand.disconnect app good = (refl, tt, inl refl)
  apply_command-AppOk (UiCommand.set_auto_connect v) app good = (
    Agrees-auto v app.conn_state app.engine app.reconnect app.connected_mac good.0,
    good.1,
    Armed-auto v app.config app.reconnect good.2,
  )
  apply_command-AppOk UiCommand.quit app good = good
  apply_command-AppOk cmd app good = put_setting-AppOk cmd app good
