-- ===== src/Tests/App.antt =====
-- src/app.rs, src/main.rs, src/config.rs: the application at concrete inputs.
-- A headset that is paired and connected, and a desk whose clock moves one millisecond at each reading.
use sony_buds_tray_control.App.{AppCore, ConnState, NcDot, Outside, UiCommand, new_with_config}
use sony_buds_tray_control.App.Command.{apply_command, setting}
use sony_buds_tray_control.App.Connection.{drive_waiting, teardown}
use sony_buds_tray_control.App.Events.{poll_engine-length}
use sony_buds_tray_control.App.Invariant.{Kept}
use sony_buds_tray_control.App.Invariant.Command.{apply_command-AppOk}
use sony_buds_tray_control.App.Invariant.Tick.{tick-AppOk}
use sony_buds_tray_control.App.Reconnect.{Attaches, drive_waiting-attach, teardown-reconnect}
use sony_buds_tray_control.App.Settings.{InRange, setting-InRange}
use sony_buds_tray_control.App.Snapshot.{snapshot}
use sony_buds_tray_control.App.Tick.{poll_engine, tick}
use sony_buds_tray_control.Config.{Config, file_text, load_text}
use sony_buds_tray_control.Config.RoundTrip.{load_text-file_text}
use sony_buds_tray_control.Device.Engine.{Engine, new}
use sony_buds_tray_control.Device.Engine.Build.CommitTotal.{request_commit-Started}
use sony_buds_tray_control.Device.Engine.Build.Request.{request_commit}
use sony_buds_tray_control.Device.Engine.Build.Total.{Started}
use sony_buds_tray_control.Device.Properties.{Properties, default_properties, set_volume}
use sony_buds_tray_control.Device.State.{default_state}
use sony_buds_tray_control.Main.{command, first_snapshot, publish, run, stops, timer}
use sony_buds_tray_control.Main.Published.{run-published, state_at_end}
use sony_buds_tray_control.Main.Total.{SharedOk, run-SharedOk}
use sony_buds_tray_control.Prelude.{
  List, [], arith, as_u8, clamp_ℤ, false, inl, inr, length, none, ok, pos, refl, some, true, ℕ,
  ◌++◌, ◌+◌, ◌∷◌, ◌≡◌, ◌≤◌,
}
use sony_buds_tray_control.Protocol.Enums.{NcAsmMode, nc_asm_mode_enum}
use sony_buds_tray_control.Text.{String, is_whitespace}
use sony_buds_tray_control.Text.Literal.{text}
use sony_buds_tray_control.Transport.{DeviceInfo, PollStatus}

abbrev headset : String
headset = text "AC:80:0A:11:22:33"

abbrev in_range : DeviceInfo
in_range = record { name = text "WF-1000XM5"; mac = headset; paired = true; connected = true }

abbrev desk : Outside ℕ (List ℕ)
desk = record {
  now = λ w. (w, w + 1);
  list_devices = λ w. (ok (in_range ∷ []), w);
  create = λ kind w. (ok [], w);
  connect_within = λ limit mac c w. (some (ok tt), c, w);
  write_config = λ file w. w;
  wire = record {
    poll_read = λ c. (ok PollStatus.timeout, c);
    recv = λ n c. (ok [], c);
    send = λ chunk c. (ok (length chunk), c ++ chunk);
  };
}

abbrev remembered : Config
remembered = record { auto_connect = true; last_device = some headset }

abbrev fresh_app : AppCore ℕ (List ℕ)
fresh_app = new_with_config 500000 remembered 500000

abbrev live_app : AppCore ℕ (List ℕ)
live_app = record fresh_app {
  conn_state = ConnState.connected;
  engine = some (record { engine = new; conn = [] });
}

abbrev lost_app : AppCore ℕ (List ℕ)
lost_app = record fresh_app {
  conn_state = ConnState.error (text "Connection lost");
  reconnect = true;
}

abbrev louder : Engine
louder = record new { props = set_volume default_properties (pos 20) }

request_commit-Started_example : Started (request_commit 0 louder)
unfolding set_volume
request_commit-Started_example =
    request_commit-Started 0 louder (omega arith, tt) (inr (omega arith))

apply_command-AppOk_example : Kept (apply_command desk UiCommand.refresh_sync live_app)
unfolding new_with_config
apply_command-AppOk_example =
    apply_command-AppOk desk UiCommand.refresh_sync live_app
      ((refl, refl), ((omega arith, tt), omega arith), inl refl)

tick-AppOk_example : Kept (tick desk live_app)
unfolding new_with_config
tick-AppOk_example =
    tick-AppOk desk live_app ((refl, refl), ((omega arith, tt), omega arith), inl refl)

run-SharedOk_example : SharedOk (
    run desk
      (timer ∷ command UiCommand.volume_up ∷ timer ∷ command UiCommand.quit ∷ [])
      (record { app = fresh_app; shown = first_snapshot }))
unfolding new_with_config
run-SharedOk_example =
    run-SharedOk desk (timer ∷ command UiCommand.volume_up ∷ timer ∷ command UiCommand.quit ∷ [])
      (record { app = fresh_app; shown = first_snapshot }) (refl, tt, inl refl)

-- Ambient sound is on, on a device that has none of its functions.
abbrev listening : Properties
listening = record default_properties {
  nc_asm_enabled = record { desired = true; current = true };
  nc_asm_mode = record { desired = NcAsmMode.asm; current = NcAsmMode.asm };
}

setting-InRange_example : InRange (set_volume default_properties (pos 200))
unfolding setting set_volume clamp_ℤ as_u8
setting-InRange_example =
    setting-InRange (UiCommand.set_volume 200) default_state default_properties
      (set_volume default_properties (pos 200)) refl
      (omega arith, omega arith, omega arith, omega arith)

abbrev torn_down : AppCore ℕ (List ℕ)
torn_down = teardown desk (some (text "Connection lost")) live_app

teardown-reconnect_example :
    (torn_down.reconnect ≡ true)
    × (torn_down.engine ≡ none)
    × (torn_down.connected_mac ≡ none)
    × (torn_down.conn_state ≡ ConnState.error (text "Connection lost"))
unfolding new_with_config
teardown-reconnect_example =
    teardown-reconnect desk (some (text "Connection lost")) live_app (inl refl)

drive_waiting-attach_example : Attaches lost_app (drive_waiting desk lost_app)
drive_waiting-attach_example = drive_waiting-attach desk lost_app

poll_engine-length_example :
    length (poll_engine desk (record { engine = louder; conn = [] }) 0).0 ≤ 8
poll_engine-length_example = poll_engine-length desk (record { engine = louder; conn = [] }) 0

load_text-file_text_example : load_text (some (file_text remembered)) ≡ remembered
unfolding is_whitespace
load_text-file_text_example = load_text-file_text remembered (ground arith)

abbrev dialling_app : AppCore ℕ (List ℕ)
dialling_app = record fresh_app {
  connected_mac = some headset;
  conn_state = ConnState.connecting;
  menu_dirty = false;
}

run-published_example :
    ConnState.connecting ≡ state_at_end (command (UiCommand.connect headset) ∷ []) dialling_app
unfolding new_with_config apply_command stops run publish snapshot
run-published_example =
    run-published desk (command (UiCommand.connect headset) ∷ [])
      (record { app = fresh_app; shown = first_snapshot })
      (record {
        app = dialling_app;
        shown = record { conn_state = ConnState.connecting; nc_dot = NcDot.hidden };
      })
      refl refl
