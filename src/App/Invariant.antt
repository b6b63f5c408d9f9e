-- ===== src/App/Invariant.antt =====
-- src/app.rs: the order that the application is in between two commands or ticks.
pub mod Command
pub mod Connecting
pub mod Live
pub mod Tick
pub mod Waiting
use sony_buds_tray_control.App.Connection.{
  arm_reconnect, fail_connect, is_some, refresh_devices, teardown,
}
use sony_buds_tray_control.App.Defs.{AppCore, ConnState, Link, Outside, new_with_config}
use sony_buds_tray_control.Config.{Config}
use sony_buds_tray_control.Device.Engine.Invariant.{EngineOk, some≢none}
use sony_buds_tray_control.Device.Engine.Stable.{BandsOk}
use sony_buds_tray_control.Prelude.{
  Bool, Option, Result-cases, arith, false, inl, inr, none, refl, some, subst, true, ℕ, ◌≡◌, ◌⊎◌,
}
use sony_buds_tray_control.Text.{String}

-- The device that is connected to is in order.
abbrev pub LinkOk : {C : Type 0} → Option (Link C) → Type 0
LinkOk none = Unit
LinkOk (some l) = EngineOk l.engine × BandsOk l.engine

-- The state of the connection agrees with the engine, the flag of reconnection and the address.
abbrev pub Agrees : {C : Type 0} → ConnState → Option (Link C) → Bool → Option String → Type 0
Agrees ConnState.connected e r mac = (is_some e ≡ true) × (r ≡ false)
Agrees ConnState.connecting e r mac = (e ≡ none) × (is_some mac ≡ true)
Agrees ConnState.not_connected e r mac = e ≡ none
Agrees (ConnState.error _) e r mac = e ≡ none

-- Reconnection is armed only if the user asked for it and there is a device to wait for.
abbrev pub Armed : Config → Bool → Type 0
Armed c r = (r ≡ false) ⊎ ((c.auto_connect ≡ true) × (is_some c.last_device ≡ true))

module _ {W C : Type 0} where
  abbrev pub AppOk : AppCore W C → Type 0
  AppOk app =
      Agrees app.conn_state app.engine app.reconnect app.connected_mac
      × LinkOk app.engine
      × Armed app.config app.reconnect

  -- There is no panic, and what is left is in order.
  abbrev pub Kept : Option (AppCore W C) → Type 0
  Kept none = ⊥
  Kept (some app) = AppOk app

  module _ (out : Outside W C) where
    pub refresh_devices-AppOk : (app : AppCore W C) → AppOk app → AppOk (refresh_devices out app)
    unfolding refresh_devices
    refresh_devices-AppOk app good = elim (Result-cases (out.list_devices app.world).0) [
      | inl (list, h) ↦ rw (refresh_devices, h) good
      | inr (e, h) ↦ rw (refresh_devices, h) good
    ]

    -- In a state of error.
    pub arm_reconnect-AppOk :
        (app : AppCore W C) (e : String)
        → app.conn_state ≡ ConnState.error e
        → app.engine ≡ none
        → Armed app.config app.reconnect
        → AppOk (arm_reconnect out app)
    unfolding arm_reconnect
    arm_reconnect-AppOk app e state idle armed = ground arith

    pub fail_connect-AppOk :
        (e : String) (app : AppCore W C)
        → app.engine ≡ none
        → Armed app.config app.reconnect
        → AppOk (fail_connect out e app)
    unfolding fail_connect
    fail_connect-AppOk e app idle armed = arm_reconnect-AppOk _ e refl idle armed

    pub teardown-AppOk :
        (why : Option String) (app : AppCore W C)
        → Armed app.config app.reconnect
        → AppOk (teardown out why app)
    unfolding teardown
    teardown-AppOk none app armed = (refl, tt, inl refl)
    teardown-AppOk (some e) app armed = arm_reconnect-AppOk _ e refl refl armed

Agrees-live :
    {C : Type 0} (state : ConnState) (l l' : Link C) (r : Bool) (mac : Option String)
    → Agrees state (some l) r mac
    → Agrees state (some l') r mac
Agrees-live ConnState.connected l l' r mac h = (refl, h.1)
Agrees-live ConnState.connecting l l' r mac h = absurd (some≢none l h.0)
Agrees-live ConnState.not_connected l l' r mac h = absurd (some≢none l h)
Agrees-live (ConnState.error _) l l' r mac h = absurd (some≢none l h)

module _ {W C : Type 0} where
  -- The engine that is connected to is in order.
  pub live-ok : (app : AppCore W C) (l : Link C) → app.engine ≡ some l → AppOk app → LinkOk (some l)
  live-ok app l live good = subst LinkOk live good.1

  -- The engine is replaced by one in order.
  pub replaced-AppOk :
      (app : AppCore W C) (l l' : Link C)
      → app.engine ≡ some l
      → LinkOk (some l')
      → AppOk app
      → AppOk (record app { engine = some l' })
  replaced-AppOk app l l' live fine good = (
    Agrees-live app.conn_state l l' app.reconnect app.connected_mac
        (subst (λ e. Agrees app.conn_state e app.reconnect app.connected_mac) live good.0),
    fine,
    good.2,
  )

pub new_with_config-AppOk :
    {W : Type 0} (C : Type 0) (now : ℕ) (c : Config) (w : W)
    → AppOk (new_with_config {C = C} now c w)
unfolding new_with_config
new_with_config-AppOk C now c w = (refl, tt, inl refl)
