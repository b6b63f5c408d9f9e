-- ===== src/Device/Engine/Defs.antt =====
-- src/device/engine.rs: errors, events, the steps of a task, and the engine's state. The connection
-- that the source keeps in the engine is passed beside it.
use sony_buds_tray_control.Device.Properties.{Properties, default_properties}
use sony_buds_tray_control.Device.State.{DeviceState, commit, default_state}
use sony_buds_tray_control.Prelude.{
  Bool, List, Option, PartialEq, [], arith, bool_eq, false, int_eq, list_eq, nat_eq, none,
  option_eq, some, true, ℕ, ◌↔◌, ◌∷◌, ◌≡◌,
}
use sony_buds_tray_control.Protocol.Enums.{
  AlertMessageType, DataType, FunctionTable1, FunctionTable2, alert_message_type_enum,
  data_type_enum, enum_eq, function_table1_enum, function_table2_enum,
}
use sony_buds_tray_control.Text.{String}
use sony_buds_tray_control.Transport.{TransportError}

pub data EngineError : Type 0 where
  timeout malformed_frame task_in_progress : EngineError
  not_supported internal : String → EngineError
  transport : TransportError → EngineError

pub data DeviceEvent : Type 0 where
  init_ok sync_ok commit_ok device_info support_functions codec nc_asm battery : DeviceEvent
  playback_metadata playback_status volume speak_to_chat equalizer upscaling : DeviceEvent
  auto_power_off auto_pause voice_guidance touch_functions listening_mode : DeviceEvent
  general_setting multipoint disconnected : DeviceEvent
  alert : AlertMessageType → DeviceEvent
  error : EngineError → DeviceEvent

pub data Wait : Type 0 where
  ack protocol_info support_function : Wait

unfoldable pub wait_beq : Wait → Wait → Bool
wait_beq ack ack = true
wait_beq protocol_info protocol_info = true
wait_beq support_function support_function = true
wait_beq _ _ = false

pub wait_beq_iff : (a b : Wait) → (wait_beq a b ≡ true) ↔ (a ≡ b)
unfolding wait_beq
wait_beq_iff a b = ground arith

instance abbrev pub wait_eq : PartialEq Wait
wait_eq = record { beq = wait_beq; beq_iff = wait_beq_iff }

pub data PropCommit : Type 0 where
  shutdown nc_asm_group nc_asm_button play_volume stc_enabled stc_ext bgm_mode : PropCommit
  upmix_cinema eq_preset eq_config upscaling auto_power_off auto_pause : PropCommit
  voice_guidance_enabled voice_guidance_volume touch_functions head_gesture : PropCommit
  gs1 gs2 gs3 gs4 : PropCommit

-- `PropCommit::apply`.
unfoldable pub apply : PropCommit → Properties → Properties
apply shutdown p = record p { shutdown = commit p.shutdown }
apply nc_asm_group p = record p {
  nc_asm_enabled = commit p.nc_asm_enabled;
  nc_asm_mode = commit p.nc_asm_mode;
  nc_asm_ambient_level = commit p.nc_asm_ambient_level;
  nc_asm_focus_on_voice = commit p.nc_asm_focus_on_voice;
  nc_asm_auto_asm_enabled = commit p.nc_asm_auto_asm_enabled;
  nc_asm_noise_adaptive_sensitivity = commit p.nc_asm_noise_adaptive_sensitivity;
}
apply nc_asm_button p = record p { nc_asm_button_function = commit p.nc_asm_button_function }
apply play_volume p = record p { play_volume = commit p.play_volume }
apply stc_enabled p = record p { speak_to_chat_enabled = commit p.speak_to_chat_enabled }
apply stc_ext p = record p {
  speak_to_chat_detect_sensitivity = commit p.speak_to_chat_detect_sensitivity;
  speak_to_mode_out_time = commit p.speak_to_mode_out_time;
}
apply bgm_mode p = record p {
  bgm_mode_enabled = commit p.bgm_mode_enabled;
  bgm_mode_room_size = commit p.bgm_mode_room_size;
}
apply upmix_cinema p = record p { upmix_cinema_enabled = commit p.upmix_cinema_enabled }
apply eq_preset p = record p { eq_preset_id = commit p.eq_preset_id }
apply eq_config p = record p {
  eq_config = commit p.eq_config;
  eq_clear_bass = commit p.eq_clear_bass;
}
apply upscaling p = record p { upscaling_enabled = commit p.upscaling_enabled }
apply auto_power_off p = record p { auto_power_off = commit p.auto_power_off }
apply auto_pause p = record p { auto_pause_enabled = commit p.auto_pause_enabled }
apply voice_guidance_enabled p = record p {
  voice_guidance_enabled = commit p.voice_guidance_enabled;
}
apply voice_guidance_volume p = record p { voice_guidance_volume = commit p.voice_guidance_volume }
apply touch_functions p = record p {
  touch_function_left = commit p.touch_function_left;
  touch_function_right = commit p.touch_function_right;
}
apply head_gesture p = record p { head_gesture_enabled = commit p.head_gesture_enabled }
apply gs1 p =
    let g = p.gs_param_bool in record p { gs_param_bool = record g { at0 = commit g.at0 } }
apply gs2 p =
    let g = p.gs_param_bool in record p { gs_param_bool = record g { at1 = commit g.at1 } }
apply gs3 p =
    let g = p.gs_param_bool in record p { gs_param_bool = record g { at2 = commit g.at2 } }
apply gs4 p =
    let g = p.gs_param_bool in record p { gs_param_bool = record g { at3 = commit g.at3 } }

-- A step, and the steps that a condition guards.
mutual
  pub data Step : Type 0 where
    send : List ℕ → DataType → Wait → Option PropCommit → Step
    await : Wait → Step
    if_table2 : Steps → Step
    if_support1 : FunctionTable1 → Steps → Step
    if_support2_any : List FunctionTable2 → Steps → Step
    nc_asm_query : Step
    done : DeviceEvent → Step

  pub data Steps : Type 0 where
    nil : Steps
    cons : Step → Steps → Steps

unfoldable pub to_list : Steps → List Step
to_list nil = []
to_list (cons s ss) = s ∷ to_list ss

unfoldable pub from_list : List Step → Steps
from_list [] = nil
from_list (s ∷ ss) = cons s (from_list ss)

-- `deadline` is an instant in milliseconds.
pub record Task : Type 0 where
  pub steps : List Step
  pub deadline : Option ℕ
  pub current_wait : Option Wait
  pub last_send : Option (List ℕ × DataType)
  pub retries : ℕ

pub record Engine : Type 0 where
  pub state : DeviceState
  pub props : Properties
  pub recv_buf : List ℕ
  pub send_buf : List ℕ
  pub tx_seq : ℕ
  pub task : Option Task
  pub last_error : Option EngineError

abbrev pub new : Engine
new = record {
  state = default_state;
  props = default_properties;
  recv_buf = [];
  send_buf = [];
  tx_seq = 0;
  task = none;
  last_error = none;
}

unfoldable pub is_ready : Engine → Bool
is_ready e = elim e.task [ none ↦ true | some _ ↦ false ]

-- What a handler returns: the engine, and the event to report.
abbrev pub Outcome : Type 0
Outcome = Engine × Option DeviceEvent

abbrev pub quiet : Engine → Outcome
quiet e = (e, none)

abbrev pub emit : Engine → DeviceEvent → Outcome
emit e ev = (e, some ev)

abbrev pub step_timeout : ℕ
step_timeout = 3000

abbrev pub max_step_retries : ℕ
max_step_retries = 3
