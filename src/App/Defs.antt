-- ===== src/App/Defs.antt =====
-- src/app.rs: the commands, the state of the connection, and the state of the application. Instants are
-- in milliseconds, since a point more than two minutes before the start.
use sony_buds_tray_control.Config.{Config}
use sony_buds_tray_control.Device.Engine.{Engine, EngineError}
use sony_buds_tray_control.Prelude.{
  Bool, List, Option, Result, [], false, none, true, ℕ, ℤ, ◌++◌, ◌-◌,
}
use sony_buds_tray_control.Protocol.Enums.{
  AutoPowerOffElements, DetectSensitivity, EqPresetId, ModeOutTime, NoiseAdaptiveSensitivity,
  Preset, RoomSize, auto_power_off_elements_enum, detect_sensitivity_enum, eq_preset_id_enum,
  mode_out_time_enum, noise_adaptive_sensitivity_enum, preset_enum, room_size_enum,
}
use sony_buds_tray_control.Text.{String}
use sony_buds_tray_control.Text.Literal.{text}
use sony_buds_tray_control.Transport.{
  DeviceInfo, Transport, TransportError, TransportKind, error_text,
}

pub data AmbientSel : Type 0 where
  nc asm off : AmbientSel

pub data NcDot : Type 0 where
  hidden noise_cancelling ambient off : NcDot

pub data UiCommand : Type 0 where
  refresh_devices refresh_sync disconnect shutdown : UiCommand
  volume_up volume_down play_pause prev_track next_track : UiCommand
  cycle_ambient_mode ambient_up ambient_down quit : UiCommand
  set_transport : TransportKind → UiCommand
  connect multipoint_switch multipoint_connect : String → UiCommand
  set_volume set_ambient_level : ℕ → UiCommand
  set_voice_guidance_volume : ℤ → UiCommand
  set_ambient_mode : AmbientSel → UiCommand
  set_voice_passthrough set_auto_asm set_speak_to_chat set_dsee set_auto_pause : Bool → UiCommand
  set_voice_guidance set_head_gesture set_bgm_mode set_cinema : Bool → UiCommand
  set_auto_connect : Bool → UiCommand
  set_noise_sensitivity : NoiseAdaptiveSensitivity → UiCommand
  set_stc_sensitivity : DetectSensitivity → UiCommand
  set_stc_mode_out : ModeOutTime → UiCommand
  set_eq_preset : EqPresetId → UiCommand
  set_auto_power_off : AutoPowerOffElements → UiCommand
  set_touch_preset_left set_touch_preset_right : Preset → UiCommand
  set_bgm_room_size : RoomSize → UiCommand
  set_general_setting : ℕ → Bool → UiCommand

pub data ConnState : Type 0 where
  not_connected connecting connected : ConnState
  error : String → ConnState

abbrev pub connect_timeout : ℕ
connect_timeout = 30000

abbrev pub reconnect_delay : ℕ
reconnect_delay = 5000

abbrev pub sync_interval : ℕ
sync_interval = 120000

-- What the application asks of the clock, the adapter, the transports and the file system, whose state
-- is a `W`. `connect` gives `none` when the connection takes longer than it may.
pub record Outside (W C : Type 0) : Type 0 where
  pub now : W → ℕ × W
  pub list_devices : W → Result TransportError (List DeviceInfo) × W
  pub create : TransportKind → W → Result String C × W
  pub connect_within : ℕ → String → C → W → Option (Result TransportError (Unit {0})) × C × W
  pub write_config : String → W → W
  pub wire : Transport C

-- An engine with its connection.
pub record Link (C : Type 0) : Type 0 where
  pub engine : Engine
  pub conn : C

pub record AppCore (W C : Type 0) : Type 0 where
  pub conn_state : ConnState
  pub devices : List DeviceInfo
  pub transport_kind : TransportKind
  pub last_error : Option String
  pub engine : Option (Link C)
  pub connected_mac : Option String
  pub last_sync : ℕ
  pub menu_dirty : Bool
  pub refresh_pending : Bool
  pub config : Config
  pub auto_connect_done : Bool
  pub reconnect : Bool
  pub next_reconnect : ℕ
  pub world : W

-- `new_with_config`, at an instant.
unfoldable pub new_with_config : {W C : Type 0} → ℕ → Config → W → AppCore W C
new_with_config now config w = record {
  conn_state = ConnState.not_connected;
  devices = [];
  transport_kind = TransportKind.classic;
  last_error = none;
  engine = none;
  connected_mac = none;
  last_sync = now - sync_interval;
  menu_dirty = true;
  refresh_pending = true;
  config = config;
  auto_connect_done = false;
  reconnect = false;
  next_reconnect = now;
  world = w;
}

abbrev pub is_connected : ConnState → Bool
is_connected ConnState.connected = true
is_connected _ = false

abbrev pub is_not_connected : ConnState → Bool
is_not_connected ConnState.not_connected = true
is_not_connected _ = false

-- `Display` of the engine's errors.
unfoldable pub engine_error_text : EngineError → String
unfolding error_text
engine_error_text EngineError.timeout = text "command timed out"
engine_error_text (EngineError.not_supported why) = text "not supported: " ++ why
engine_error_text (EngineError.transport why) = text "transport: " ++ error_text why
engine_error_text EngineError.malformed_frame = text "malformed frame"
engine_error_text EngineError.task_in_progress = text "another task is in progress"
engine_error_text (EngineError.internal why) = text "internal: " ++ why

unfoldable pub conn_state_str : ConnState → String
conn_state_str (ConnState.error e) = e
conn_state_str ConnState.not_connected = text "Not connected"
conn_state_str ConnState.connecting = text "Connecting…"
conn_state_str ConnState.connected = text "Connected"

abbrev pub at_world : {W C : Type 0} → W → AppCore W C → AppCore W C
at_world w app = record app { world = w }
