-- ===== src/Device/Engine/Build/Exclusive.antt =====
-- src/device/engine.rs: one task at a time.
use sony_buds_tray_control.Device.Engine.Build.Init.{build_init_steps}
use sony_buds_tray_control.Device.Engine.Build.Request.{
  begin, request_commit, request_init, request_sync,
}
use sony_buds_tray_control.Device.Engine.Build.Sync.{build_sync_steps}
use sony_buds_tray_control.Device.Engine.Defs.{
  Engine, EngineError, Step, Task, is_ready, task_in_progress,
}
use sony_buds_tray_control.Device.Engine.Runner.{
  advance_task, begin_task, new_task, put_task, send_command, settle, start, total_weight,
}
use sony_buds_tray_control.Prelude.{
  Bool-cases, List, Option, Result, arith, err, false, inl, inr, none, ok, refl, some, subst, ℕ,
  ◌≡◌, ◌⊎◌,
}

abbrev pub Answer : Type 0
Answer = Option (Result EngineError (Unit {0}) × Engine)

start-is_ready : (now : ℕ) (e : Engine) (t : Task) → is_ready (start now e t) ≡ false
unfolding start is_ready send_command
start-is_ready now e t = ground arith

begin_task-is_ready :
    (now : ℕ) (steps : List Step) (e : Engine) → is_ready (begin_task now steps e) ≡ false
unfolding begin_task advance_task
begin_task-is_ready now steps e =
    let e' = put_task e (new_task steps) in
    start-is_ready now e'
      (record (new_task steps) { steps = settle (total_weight steps) e.state steps })

-- A request that was taken in, if it was, left a task behind.
abbrev LeavesTask : Answer → Type 0
LeavesTask (some (ok _, e)) = is_ready e ≡ false
LeavesTask _ = Unit

begin-LeavesTask :
    (now : ℕ) (e : Engine) (steps : Option (List Step)) → LeavesTask (begin now e steps)
begin-LeavesTask now e none = tt
begin-LeavesTask now e (some steps) = begin_task-is_ready now steps e

request_init-LeavesTask : (now : ℕ) (e : Engine) → LeavesTask (request_init now e)
unfolding request_init
request_init-LeavesTask now e = elim (Bool-cases (is_ready e)) [
  | inl free ↦ rw (request_init, free) (begin-LeavesTask now e (build_init_steps e.state))
  | inr busy ↦ rw (request_init, busy) tt
]

request_sync-LeavesTask : (now : ℕ) (e : Engine) → LeavesTask (request_sync now e)
unfolding request_sync
request_sync-LeavesTask now e = elim (Bool-cases (is_ready e)) [
  | inl free ↦ rw (request_sync, free) (begin-LeavesTask now e (build_sync_steps e.state))
  | inr busy ↦ rw (request_sync, busy) tt
]

abbrev pub refused : Engine → Answer
refused e = some (err task_in_progress, e)

request-refused :
    (now : ℕ) (e : Engine)
    → is_ready e ≡ false
    → (request_init now e ≡ refused e)
      × (request_sync now e ≡ refused e)
      × (request_commit now e ≡ refused e)
unfolding request_init request_sync request_commit
request-refused now e busy =
    (rw (request_init, busy) refl, rw (request_sync, busy) refl, rw (request_commit, busy) refl)

-- In the engine that a request to initialise or to synchronise leaves when it is taken in, whatever the
-- device supports, each of the three requests is refused because a task is in progress, at any time, and
-- leaves that engine as it is.
pub request-task_in_progress :
    (now later : ℕ) (e e' : Engine)
    → (request_init now e ≡ some (ok tt, e')) ⊎ (request_sync now e ≡ some (ok tt, e'))
    → (request_init later e' ≡ refused e')
      × (request_sync later e' ≡ refused e')
      × (request_commit later e' ≡ refused e')
request-task_in_progress now later e e' (inl taken) =
    request-refused later e' (subst LeavesTask taken (request_init-LeavesTask now e))
request-task_in_progress now later e e' (inr taken) =
    request-refused later e' (subst LeavesTask taken (request_sync-LeavesTask now e))
