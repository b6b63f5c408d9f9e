-- ===== src/Main.antt =====
-- src/main.rs: the loop of the application's task. Each round takes a command, a tick of the timer, or
-- the end of the commands, and publishes the snapshot when something changed. `none` is a panic.
pub mod Published
pub mod Total
use sony_buds_tray_control.App.{AppCore, ConnState, NcDot, Outside, UiCommand}
use sony_buds_tray_control.App.Command.{apply_command}
use sony_buds_tray_control.App.Snapshot.{UiSnapshot, snapshot}
use sony_buds_tray_control.App.Tick.{tick}
use sony_buds_tray_control.Prelude.{
  Bool, List, Option, [], false, if◌then◌else◌, none, some, true, ◌∷◌,
}

pub data Input : Type 0 where
  command : UiCommand → Input
  timer closed : Input

-- The application, and the snapshot that the tray reads.
pub record Shared (W C : Type 0) : Type 0 where
  pub app : AppCore W C
  pub shown : UiSnapshot

abbrev pub first_snapshot : UiSnapshot
first_snapshot = record { conn_state = ConnState.not_connected; nc_dot = NcDot.hidden }

module _ {W C : Type 0} where
  abbrev pub clean : AppCore W C → AppCore W C
  clean app = record app { menu_dirty = false }

  abbrev pub show : AppCore W C → Option UiSnapshot → Option (Shared W C)
  show app none = none
  show app (some s) = some (record { app = clean app; shown = s })

  -- The end of a round.
  unfoldable pub publish : UiSnapshot → AppCore W C → Option (Shared W C)
  unfolding snapshot
  publish old app =
      if app.menu_dirty then show app (snapshot app) else some (record { app = app; shown = old })

  abbrev pub publish_from : UiSnapshot → Option (AppCore W C) → Option (Shared W C)
  publish_from old none = none
  publish_from old (some app) = publish old app

  -- When the loop has ended.
  abbrev pub ended : Shared W C → Shared W C
  ended s = record s { shown = record s.shown { conn_state = ConnState.not_connected } }

  abbrev pub continue :
      (Shared W C → Option (Shared W C)) → Option (Shared W C) → Option (Shared W C)
  continue rest none = none
  continue rest (some s) = rest s

-- `Quit`, or the end of the commands.
unfoldable pub stops : Input → Bool
stops closed = true
stops timer = false
stops (command UiCommand.quit) = true
stops (command _) = false

module _ {W C : Type 0} (out : Outside W C) where
  unfoldable pub act : Input → AppCore W C → Option (AppCore W C)
  unfolding apply_command tick
  act closed app = some app
  act timer app = tick out app
  act (command cmd) app = apply_command out cmd app

  unfoldable pub run : List Input → Shared W C → Option (Shared W C)
  unfolding stops act publish
  run [] s = some s
  run (i ∷ is) s = elim (stops i) [
    | true ↦ some (ended s)
    | false ↦ continue (run is) (publish_from s.shown (act i s.app))
  ]
