-- ===== src/Main/Total.antt =====
-- src/main.rs: the loop of the application's task, with the order of the application.
use sony_buds_tray_control.App.{AppCore, Outside}
use sony_buds_tray_control.App.Invariant.{AppOk, Kept}
use sony_buds_tray_control.App.Invariant.Command.{apply_command-AppOk}
use sony_buds_tray_control.App.Invariant.Tick.{tick-AppOk}
use sony_buds_tray_control.App.Snapshot.{UiSnapshot, snapshot, snapshot-IsSome}
use sony_buds_tray_control.Device.Engine.Build.Total.{IsSome}
use sony_buds_tray_control.Main.{
  Input, Shared, act, continue, publish, publish_from, run, show, stops,
}
use sony_buds_tray_control.Prelude.{
  Bool-cases, List, Option, [], arith, false, inl, inr, none, some, subst, sym, true, ◌∷◌, ◌≡◌,
}

abbrev pub SharedOk : {W C : Type 0} → Option (Shared W C) → Type 0
SharedOk none = ⊥
SharedOk (some s) = AppOk s.app

module _ {W C : Type 0} where
  show-SharedOk :
      (app : AppCore W C) (s : Option UiSnapshot) → IsSome s → AppOk app → SharedOk (show app s)
  show-SharedOk app none h good = h
  show-SharedOk app (some s) h good = good

  publish_same :
      (old : UiSnapshot) (app : AppCore W C)
      → app.menu_dirty ≡ false
      → publish old app ≡ some (record { app = app; shown = old })
  unfolding publish
  publish_same old app h = ground arith

  publish_changed :
      (old : UiSnapshot) (app : AppCore W C)
      → app.menu_dirty ≡ true
      → publish old app ≡ show app (snapshot app)
  unfolding publish
  publish_changed old app h = ground arith

  publish-SharedOk : (old : UiSnapshot) (app : AppCore W C) → AppOk app → SharedOk (publish old app)
  unfolding publish
  publish-SharedOk old app good = elim (Bool-cases app.menu_dirty) [
    | inr same ↦ subst SharedOk (sym (publish_same old app same)) good
    | inl changed' ↦
        subst SharedOk (sym (publish_changed old app changed'))
          (show-SharedOk app (snapshot app) (snapshot-IsSome app good) good)
  ]

  publish_from-SharedOk :
      (old : UiSnapshot) (r : Option (AppCore W C)) → Kept r → SharedOk (publish_from old r)
  publish_from-SharedOk old none h = h
  publish_from-SharedOk old (some app) h = publish-SharedOk old app h

module _ {W C : Type 0} (out : Outside W C) where
  act-Kept : (i : Input) (app : AppCore W C) → AppOk app → Kept (act out i app)
  unfolding act
  act-Kept Input.closed app good = good
  act-Kept Input.timer app good = tick-AppOk out app good
  act-Kept (Input.command cmd) app good = apply_command-AppOk out cmd app good

  continue-SharedOk :
      (rest : Shared W C → Option (Shared W C)) (s : Option (Shared W C))
      → ((s' : Shared W C) → AppOk s'.app → SharedOk (rest s'))
      → SharedOk s
      → SharedOk (continue rest s)
  continue-SharedOk rest none h good = good
  continue-SharedOk rest (some s) h good = h s good

  -- Whatever commands and ticks reach the loop, and in whatever order, and whatever the adapter, the
  -- transport, the clock and the device do, the loop does not panic in an application in order: the
  -- engine that it expects is there, and every task that it requests can be built. What it leaves is in
  -- order.
  pub run-SharedOk : (is : List Input) (s : Shared W C) → AppOk s.app → SharedOk (run out is s)
  unfolding run
  run-SharedOk [] s good = good
  run-SharedOk (i ∷ is) s good = elim (Bool-cases (stops i)) [
    | inl over ↦ rw (run, over) good
    | inr on ↦
        rw (run, on)
          (continue-SharedOk (run out is) (publish_from s.shown (act out i s.app)) (run-SharedOk is)
            (publish_from-SharedOk s.shown (act out i s.app) (act-Kept i s.app good)))
  ]
