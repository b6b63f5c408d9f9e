-- ===== src/Device/Engine/Commit.antt =====
-- src/device/engine.rs, `PropCommit::apply`: what an acknowledged command does to the settable values. The
-- code takes over the values of the moment, which the command carried only if the user has not changed
-- them since it was sent.
use sony_buds_tray_control.Device.Engine.Defs.{
  PropCommit, apply, auto_pause, auto_power_off, bgm_mode, eq_config, eq_preset, gs1, gs2, gs3, gs4,
  head_gesture, nc_asm_button, nc_asm_group, play_volume, shutdown, stc_enabled, stc_ext,
  touch_functions, upmix_cinema, upscaling, voice_guidance_enabled, voice_guidance_volume, wait_eq,
}
use sony_buds_tray_control.Device.Properties.{Properties}
use sony_buds_tray_control.Device.State.{Prop, commit, dirty, request_eq}
use sony_buds_tray_control.Prelude.{
  Bool, PartialEq, arith, bool_eq, false, if◌then◌else◌, int_eq, list_eq, nat_eq, option_eq, refl,
  ℕ, ◌==◌, ◌||◌, ◌≡◌,
}
use sony_buds_tray_control.Protocol.Enums.{
  auto_power_off_elements_enum, detect_sensitivity_enum, enum_eq, eq_preset_id_enum, function_enum,
  mode_out_time_enum, nc_asm_mode_enum, noise_adaptive_sensitivity_enum, playback_control_enum,
  preset_enum, room_size_enum,
}

pub dirty-commit : {A : Type 0} ⦃e : PartialEq A⦄ (p : Prop A) → dirty (commit p) ≡ false
dirty-commit ⦃e⦄ p = rw ((e.beq_iff p.desired p.desired).1 refl) refl

pub both : {a b : Bool} → a ≡ false → b ≡ false → (a || b) ≡ false
both h k = rw (h, k) refl

-- The values that a commit is about are out of date.
abbrev pub pending : PropCommit → Properties → Bool
pending shutdown p = dirty p.shutdown
pending nc_asm_group p =
    dirty p.nc_asm_enabled
    || dirty p.nc_asm_mode
    || dirty p.nc_asm_ambient_level
    || dirty p.nc_asm_focus_on_voice
    || dirty p.nc_asm_auto_asm_enabled
    || dirty p.nc_asm_noise_adaptive_sensitivity
pending nc_asm_button p = dirty p.nc_asm_button_function
pending play_volume p = dirty p.play_volume
pending stc_enabled p = dirty p.speak_to_chat_enabled
pending stc_ext p = dirty p.speak_to_chat_detect_sensitivity || dirty p.speak_to_mode_out_time
pending bgm_mode p = dirty p.bgm_mode_enabled || dirty p.bgm_mode_room_size
pending upmix_cinema p = dirty p.upmix_cinema_enabled
pending eq_preset p = dirty p.eq_preset_id
pending eq_config p = dirty p.eq_config || dirty p.eq_clear_bass
pending upscaling p = dirty p.upscaling_enabled
pending auto_power_off p = dirty p.auto_power_off
pending auto_pause p = dirty p.auto_pause_enabled
pending voice_guidance_enabled p = dirty p.voice_guidance_enabled
pending voice_guidance_volume p = dirty p.voice_guidance_volume
pending touch_functions p = dirty p.touch_function_left || dirty p.touch_function_right
pending head_gesture p = dirty p.head_gesture_enabled
pending gs1 p = dirty p.gs_param_bool.at0
pending gs2 p = dirty p.gs_param_bool.at1
pending gs3 p = dirty p.gs_param_bool.at2
pending gs4 p = dirty p.gs_param_bool.at3

-- The values that a commit is about are up to date behind it.
pending-apply_same : (c : PropCommit) (p : Properties) → pending c (apply c p) ≡ false
unfolding apply
pending-apply_same shutdown p = dirty-commit p.shutdown
pending-apply_same nc_asm_group p =
    both
      (both
        (both
          (both (both (dirty-commit p.nc_asm_enabled) (dirty-commit p.nc_asm_mode))
            (dirty-commit p.nc_asm_ambient_level))
          (dirty-commit p.nc_asm_focus_on_voice))
        (dirty-commit p.nc_asm_auto_asm_enabled))
      (dirty-commit p.nc_asm_noise_adaptive_sensitivity)
pending-apply_same nc_asm_button p = dirty-commit p.nc_asm_button_function
pending-apply_same play_volume p = dirty-commit p.play_volume
pending-apply_same stc_enabled p = dirty-commit p.speak_to_chat_enabled
pending-apply_same stc_ext p =
    both (dirty-commit p.speak_to_chat_detect_sensitivity) (dirty-commit p.speak_to_mode_out_time)
pending-apply_same bgm_mode p =
    both (dirty-commit p.bgm_mode_enabled) (dirty-commit p.bgm_mode_room_size)
pending-apply_same upmix_cinema p = dirty-commit p.upmix_cinema_enabled
pending-apply_same eq_preset p = dirty-commit p.eq_preset_id
pending-apply_same eq_config p = both (dirty-commit p.eq_config) (dirty-commit p.eq_clear_bass)
pending-apply_same upscaling p = dirty-commit p.upscaling_enabled
pending-apply_same auto_power_off p = dirty-commit p.auto_power_off
pending-apply_same auto_pause p = dirty-commit p.auto_pause_enabled
pending-apply_same voice_guidance_enabled p = dirty-commit p.voice_guidance_enabled
pending-apply_same voice_guidance_volume p = dirty-commit p.voice_guidance_volume
pending-apply_same touch_functions p =
    both (dirty-commit p.touch_function_left) (dirty-commit p.touch_function_right)
pending-apply_same head_gesture p = dirty-commit p.head_gesture_enabled
pending-apply_same gs1 p = dirty-commit p.gs_param_bool.at0
pending-apply_same gs2 p = dirty-commit p.gs_param_bool.at1
pending-apply_same gs3 p = dirty-commit p.gs_param_bool.at2
pending-apply_same gs4 p = dirty-commit p.gs_param_bool.at3

abbrev index : PropCommit → ℕ
index shutdown = 0
index nc_asm_group = 1
index nc_asm_button = 2
index play_volume = 3
index stc_enabled = 4
index stc_ext = 5
index bgm_mode = 6
index upmix_cinema = 7
index eq_preset = 8
index eq_config = 9
index upscaling = 10
index auto_power_off = 11
index auto_pause = 12
index voice_guidance_enabled = 13
index voice_guidance_volume = 14
index touch_functions = 15
index head_gesture = 16
index gs1 = 17
index gs2 = 18
index gs3 = 19
index gs4 = 20

-- The same group of values.
abbrev pub same_group : PropCommit → PropCommit → Bool
same_group c c' = index c == index c'

-- Every value as the user wants it.
abbrev pub wanted : Properties → Properties
wanted p = record {
  shutdown = commit p.shutdown;
  nc_asm_enabled = commit p.nc_asm_enabled;
  nc_asm_mode = commit p.nc_asm_mode;
  nc_asm_ambient_level = commit p.nc_asm_ambient_level;
  nc_asm_focus_on_voice = commit p.nc_asm_focus_on_voice;
  nc_asm_auto_asm_enabled = commit p.nc_asm_auto_asm_enabled;
  nc_asm_noise_adaptive_sensitivity = commit p.nc_asm_noise_adaptive_sensitivity;
  nc_asm_button_function = commit p.nc_asm_button_function;
  play_volume = commit p.play_volume;
  play_control = commit p.play_control;
  speak_to_chat_enabled = commit p.speak_to_chat_enabled;
  speak_to_chat_detect_sensitivity = commit p.speak_to_chat_detect_sensitivity;
  speak_to_mode_out_time = commit p.speak_to_mode_out_time;
  bgm_mode_enabled = commit p.bgm_mode_enabled;
  bgm_mode_room_size = commit p.bgm_mode_room_size;
  upmix_cinema_enabled = commit p.upmix_cinema_enabled;
  eq_available = commit p.eq_available;
  eq_preset_id = commit p.eq_preset_id;
  eq_clear_bass = commit p.eq_clear_bass;
  eq_config = commit p.eq_config;
  upscaling_enabled = commit p.upscaling_enabled;
  auto_power_off = commit p.auto_power_off;
  auto_pause_enabled = commit p.auto_pause_enabled;
  voice_guidance_enabled = commit p.voice_guidance_enabled;
  voice_guidance_volume = commit p.voice_guidance_volume;
  touch_function_left = commit p.touch_function_left;
  touch_function_right = commit p.touch_function_right;
  head_gesture_enabled = commit p.head_gesture_enabled;
  gs_param_bool = record {
    at0 = commit p.gs_param_bool.at0;
    at1 = commit p.gs_param_bool.at1;
    at2 = commit p.gs_param_bool.at2;
    at3 = commit p.gs_param_bool.at3;
  };
  multipoint_request = commit p.multipoint_request;
}

-- An acknowledged command changes nothing that the user wants. None of the group of values that it is
-- about is pending behind it: each is what the user wants when the acknowledgement arrives. Every other
-- group is pending exactly if it was.
pub pending-apply :
    (c c' : PropCommit) (p : Properties)
    → (wanted (apply c p) ≡ wanted p)
      × (pending c' (apply c p) ≡ (if same_group c c' then false else pending c' p))
unfolding apply
pending-apply shutdown c' p = (refl, ground (arith, pending-apply_same shutdown p))
pending-apply nc_asm_group c' p = (refl, ground (arith, pending-apply_same nc_asm_group p))
pending-apply nc_asm_button c' p = (refl, ground (arith, pending-apply_same nc_asm_button p))
pending-apply play_volume c' p = (refl, ground (arith, pending-apply_same play_volume p))
pending-apply stc_enabled c' p = (refl, ground (arith, pending-apply_same stc_enabled p))
pending-apply stc_ext c' p = (refl, ground (arith, pending-apply_same stc_ext p))
pending-apply bgm_mode c' p = (refl, ground (arith, pending-apply_same bgm_mode p))
pending-apply upmix_cinema c' p = (refl, ground (arith, pending-apply_same upmix_cinema p))
pending-apply eq_preset c' p = (refl, ground (arith, pending-apply_same eq_preset p))
pending-apply eq_config c' p = (refl, ground (arith, pending-apply_same eq_config p))
pending-apply upscaling c' p = (refl, ground (arith, pending-apply_same upscaling p))
pending-apply auto_power_off c' p = (refl, ground (arith, pending-apply_same auto_power_off p))
pending-apply auto_pause c' p = (refl, ground (arith, pending-apply_same auto_pause p))
pending-apply voice_guidance_enabled c' p =
    (refl, ground (arith, pending-apply_same voice_guidance_enabled p))
pending-apply voice_guidance_volume c' p =
    (refl, ground (arith, pending-apply_same voice_guidance_volume p))
pending-apply touch_functions c' p = (refl, ground (arith, pending-apply_same touch_functions p))
pending-apply head_gesture c' p = (refl, ground (arith, pending-apply_same head_gesture p))
pending-apply gs1 c' p = (refl, ground (arith, pending-apply_same gs1 p))
pending-apply gs2 c' p = (refl, ground (arith, pending-apply_same gs2 p))
pending-apply gs3 c' p = (refl, ground (arith, pending-apply_same gs3 p))
pending-apply gs4 c' p = (refl, ground (arith, pending-apply_same gs4 p))
