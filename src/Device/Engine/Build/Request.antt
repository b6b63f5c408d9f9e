-- ===== src/Device/Engine/Build/Request.antt =====
-- src/device/engine.rs, `request_init`, `request_sync` and `request_commit`. `none` is a panic of the builder.
use sony_buds_tray_control.Device.Engine.Build.Commit.{build_commit_steps}
use sony_buds_tray_control.Device.Engine.Build.Init.{build_init_steps}
use sony_buds_tray_control.Device.Engine.Build.Sync.{build_sync_steps}
use sony_buds_tray_control.Device.Engine.Defs.{
  Engine, EngineError, Step, is_ready, task_in_progress,
}
use sony_buds_tray_control.Device.Engine.Runner.{begin_task}
use sony_buds_tray_control.Device.Properties.{Properties, is_dirty}
use sony_buds_tray_control.Prelude.{
  List, Option, Result, [], err, if◌then◌else◌, none, not, ok, some, ℕ, ◌∷◌,
}

abbrev pub begin : ℕ → Engine → Option (List Step) → Option (Result EngineError (Unit {0}) × Engine)
begin now e none = none
begin now e (some steps) = some (ok tt, begin_task now steps e)

unfoldable pub request_init : ℕ → Engine → Option (Result EngineError (Unit {0}) × Engine)
unfolding is_ready build_init_steps begin_task
request_init now e =
    if is_ready e then begin now e (build_init_steps e.state) else some (err task_in_progress, e)

unfoldable pub request_sync : ℕ → Engine → Option (Result EngineError (Unit {0}) × Engine)
unfolding is_ready build_sync_steps begin_task
request_sync now e =
    if is_ready e then begin now e (build_sync_steps e.state) else some (err task_in_progress, e)

-- With the steps of a commit. The requests that are sent once have left the settable values by then.
abbrev pub begin_commit :
    ℕ → Engine → Option (List Step) × Properties → Option (Result EngineError (Unit {0}) × Engine)
begin_commit now e (none, _) = none
begin_commit now e (some [], p) = some (ok tt, record e { props = p })
begin_commit now e (some (s ∷ ss), p) =
    some (ok tt, begin_task now (s ∷ ss) (record e { props = p }))

unfoldable pub request_commit : ℕ → Engine → Option (Result EngineError (Unit {0}) × Engine)
unfolding is_ready is_dirty build_commit_steps begin_task
request_commit now e =
    if not (is_ready e)
    then some (err task_in_progress, e)
    else if not (is_dirty e.props)
    then some (ok tt, e)
    else begin_commit now e (build_commit_steps e.state e.props)
