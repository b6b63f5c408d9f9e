-- ===== src/Main/Published.antt =====
-- src/main.rs: what is published at the end of a round. Within a round, and so while a tick waits for a
-- connection, the tray reads what the round before has published.
use sony_buds_tray_control.App.{AppCore, ConnState, Outside}
use sony_buds_tray_control.App.Fresh.{
  Fresh, LeavesFresh, apply_command-LeavesFresh, tick-LeavesFresh,
}
use sony_buds_tray_control.App.Snapshot.{UiSnapshot, snapshot}
use sony_buds_tray_control.Device.State.{dirty}
use sony_buds_tray_control.Main.{
  Input, Shared, act, continue, publish, publish_from, run, show, stops,
}
use sony_buds_tray_control.Prelude.{
  Bool, Bool-cases, List, Option, [], arith, bool_eq, false, if◌then◌else◌, inl, inr, int_eq,
  list_eq, nat_eq, none, option_eq, refl, some, subst, sym, true, ◌∷◌, ◌≡◌,
}
use sony_buds_tray_control.Protocol.Enums.{enum_eq}

-- The loop ends by itself on these inputs.
abbrev pub any_stops : List Input → Bool
any_stops [] = false
any_stops (i ∷ is) = if stops i then true else any_stops is

-- The state of the connection that should be published at the end of a run.
abbrev pub state_at_end : {W C : Type 0} → List Input → AppCore W C → ConnState
state_at_end is app = if any_stops is then ConnState.not_connected else app.conn_state

-- The state that is published is the one that the application is in.
abbrev pub UpToDate : {W C : Type 0} → Shared W C → Type 0
UpToDate s = s.shown.conn_state ≡ s.app.conn_state

abbrev IsUpToDate : {W C : Type 0} → Option (Shared W C) → Type 0
IsUpToDate none = Unit
IsUpToDate (some s) = UpToDate s

module _ {W C : Type 0} where
  snapshot-conn_state :
      (app : AppCore W C) (state : ConnState) (s : UiSnapshot)
      → app.conn_state ≡ state
      → snapshot app ≡ some s
      → s.conn_state ≡ app.conn_state
  unfolding snapshot
  snapshot-conn_state app state s h shown = ground arith

  show-IsUpToDate :
      (app : AppCore W C) (r : Option UiSnapshot) → snapshot app ≡ r → IsUpToDate (show app r)
  show-IsUpToDate app none h = tt
  show-IsUpToDate app (some s) h = snapshot-conn_state app app.conn_state s refl h

  publish-IsUpToDate :
      (old : UiSnapshot) (app : AppCore W C)
      → Fresh old.conn_state app
      → IsUpToDate (publish old app)
  unfolding publish
  publish-IsUpToDate old app fresh' = elim (Bool-cases app.menu_dirty) [
    | inl dirty ↦ rw (publish, dirty) (show-IsUpToDate app (snapshot app) refl)
    | inr clean' ↦ elim fresh' [
      | inl dirty ↦ absurd cc
      | inr same ↦ rw (publish, clean') (sym same)
    ]
  ]

  publish_from-IsUpToDate :
      (old : UiSnapshot) (r : Option (AppCore W C))
      → LeavesFresh old.conn_state r
      → IsUpToDate (publish_from old r)
  publish_from-IsUpToDate old none h = tt
  publish_from-IsUpToDate old (some app) h = publish-IsUpToDate old app h

module _ {W C : Type 0} (out : Outside W C) where
  act-LeavesFresh :
      (x : ConnState) (i : Input) (app : AppCore W C) → Fresh x app → LeavesFresh x (act out i app)
  unfolding act
  act-LeavesFresh x Input.closed app h = h
  act-LeavesFresh x Input.timer app h = tick-LeavesFresh out x app h
  act-LeavesFresh x (Input.command cmd) app h = apply_command-LeavesFresh out x cmd app h

  -- What is right at the end of a run.
  abbrev RightAt : List Input → Option (Shared W C) → Type 0
  RightAt is none = Unit
  RightAt is (some s) = s.shown.conn_state ≡ state_at_end is s.app

  continue-RightAt :
      (is : List Input) (r : Option (Shared W C))
      → ((s : Shared W C) → UpToDate s → RightAt is (run out is s))
      → IsUpToDate r
      → RightAt is (continue (run out is) r)
  continue-RightAt is none h fine = tt
  continue-RightAt is (some s) h fine = h s fine

  any_stops-RightAt :
      (i : Input) (is : List Input) (r : Option (Shared W C))
      → stops i ≡ false
      → RightAt is r
      → RightAt (i ∷ is) r
  any_stops-RightAt i is none on h = tt
  any_stops-RightAt i is (some s) on h = rw (any_stops, on) h

  run-RightAt : (is : List Input) (s : Shared W C) → UpToDate s → RightAt is (run out is s)
  unfolding run
  run-RightAt [] s now' = now'
  run-RightAt (i ∷ is) s now' = elim (Bool-cases (stops i)) [
    | inl over ↦ rw (run, over, any_stops, over) refl
    | inr on ↦
        rw (run, on)
          (any_stops-RightAt i is _ on (
            continue-RightAt is _ (run-RightAt is) (
              publish_from-IsUpToDate s.shown (act out i s.app)
                (act-LeavesFresh s.shown.conn_state i s.app (inr (sym now'))))))
  ]

  -- After each round of the loop the state of the connection that it has published is the one that the
  -- application is in, if it was when the loop began: after any commands and ticks, in any order, and
  -- whatever the adapter, the transport, the clock and the device do. When the loop has ended, it is the
  -- state of no connection.
  pub run-published :
      (is : List Input) (s s' : Shared W C)
      → UpToDate s
      → run out is s ≡ some s'
      → s'.shown.conn_state ≡ state_at_end is s'.app
  run-published is s s' now' done' = subst (RightAt is) done' (run-RightAt is s now')
