-- ===== src/App/Invariant/Connecting.antt =====
-- src/app.rs, `tick`: the order of the application on the way into a connection.
use sony_buds_tray_control.App.Connection.{
  connect_with, drive_connecting, repainted, start_engine, unwrap_or_default,
}
use sony_buds_tray_control.App.Defs.{AppCore, Outside, at_world, connect_timeout}
use sony_buds_tray_control.App.Invariant.{Armed, Kept, LinkOk, fail_connect-AppOk}
use sony_buds_tray_control.App.Invariant.Command.{Requested, requested}
use sony_buds_tray_control.Device.Engine.{Engine, EngineError, new}
use sony_buds_tray_control.Device.Engine.Build.Keeps.{request_init-Few}
use sony_buds_tray_control.Device.Engine.Build.Request.{request_init}
use sony_buds_tray_control.Device.Engine.Build.Total.{request_init-Started}
use sony_buds_tray_control.Prelude.{
  Option, Option-cases, Result, Result-cases, arith, err, inl, inr, none, ok, refl, some, subst,
  sym, ℕ, ◌≡◌,
}

request_init-Requested : (now : ℕ) → Requested (request_init now new)
request_init-Requested now =
    requested _ (request_init-Started now new (omega arith, tt))
      (request_init-Few now new (omega arith))

module _ {W C : Type 0} (out : Outside W C) where
  started :
      (c : C) (app : AppCore W C) (r : Option (Result EngineError (Unit {0}) × Engine))
      → request_init (out.now app.world).0 new ≡ r
      → Requested r
      → app.engine ≡ none
      → Armed app.config app.reconnect
      → Kept (start_engine out c app)
  unfolding start_engine
  started c app none h fine idle armed = absurd fine
  started c app (some (ok _, e)) h fine idle armed =
      rw (start_engine, h) ((refl, refl), fine, inl refl)
  started c app (some (err _, e)) h fine idle armed =
      rw (start_engine, h) (idle, subst LinkOk (sym idle) tt, armed)

  connect_with-Kept :
      (c : C) (app : AppCore W C)
      → app.engine ≡ none
      → Armed app.config app.reconnect
      → Kept (connect_with out c app)
  unfolding connect_with
  connect_with-Kept c app idle armed =
      let mac = unwrap_or_default app.connected_mac in
      let dialled = out.connect_within connect_timeout mac c app.world in
      elim (Option-cases dialled.0) [
        | inl late ↦
            rw (connect_with, late) (fail_connect-AppOk out _ (at_world dialled.2 app) idle armed)
        | inr (r, h) ↦ elim (Result-cases r) [
          | inl (_, done') ↦
              rw (connect_with, h, done')
                (started dialled.1 (at_world dialled.2 app) _ refl (request_init-Requested _) idle
                  armed)
          | inr (e, refused') ↦
              rw (connect_with, h, refused')
                (fail_connect-AppOk out _ (at_world dialled.2 app) idle armed)
        ]
      ]

  repainted-Kept : (r : Option (AppCore W C)) → Kept r → Kept (repainted r)
  repainted-Kept none good = good
  repainted-Kept (some app) good = good

  pub drive_connecting-Kept :
      (app : AppCore W C)
      → app.engine ≡ none
      → Armed app.config app.reconnect
      → Kept (drive_connecting out app)
  unfolding drive_connecting
  drive_connecting-Kept app idle armed =
      elim (Result-cases (out.create app.transport_kind app.world).0) [
        | inl (c, made) ↦
            rw (drive_connecting, made)
              (repainted-Kept _ (
                connect_with-Kept c (at_world (out.create app.transport_kind app.world).1 app) idle
                  armed))
        | inr (e, failed') ↦
            rw (drive_connecting, failed')
              (fail_connect-AppOk out e (at_world (out.create app.transport_kind app.world).1 app)
                idle armed)
      ]
