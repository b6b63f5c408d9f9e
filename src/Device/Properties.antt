-- ===== src/Device/Properties.antt =====
-- src/device/state.rs, `Properties`: every value that the user can set. Bytes are numbers, and an
-- `i8` is the integer that it stands for.
pub mod Bounds
use sony_buds_tray_control.Device.State.{MultipointRequest, Prop, desire, dirty, fresh, request_eq}
use sony_buds_tray_control.Prelude.{
  Bool, List, Option, [], add_i32, as_i8, as_u8, bool_eq, clamp_ℤ, false, get_elem?, if◌then◌else◌,
  int_eq, length, list_eq, nat_eq, negsuc, none, option_eq, pos, set, some, true, ℕ, ℤ, ◌-◌, ◌==◌,
  ◌||◌,
}
use sony_buds_tray_control.Protocol.Enums.{
  AutoPowerOffElements, DetectSensitivity, EqPresetId, Function, ModeOutTime, NcAsmMode,
  NoiseAdaptiveSensitivity, PlaybackControl, Preset, RoomSize, auto_power_off_elements_enum,
  detect_sensitivity_enum, enum_eq, eq_preset_id_enum, function_enum, mode_out_time_enum,
  nc_asm_mode_enum, noise_adaptive_sensitivity_enum, playback_control_enum, preset_enum,
  room_size_enum,
}

-- `[A; 4]`.
pub record Four (A : Type 0) : Type 0 where
  pub at0 : A
  pub at1 : A
  pub at2 : A
  pub at3 : A

pub record Properties : Type 0 where
  pub shutdown : Prop Bool
  pub nc_asm_enabled : Prop Bool
  pub nc_asm_mode : Prop NcAsmMode
  pub nc_asm_ambient_level : Prop ℕ
  pub nc_asm_focus_on_voice : Prop Bool
  pub nc_asm_auto_asm_enabled : Prop Bool
  pub nc_asm_noise_adaptive_sensitivity : Prop NoiseAdaptiveSensitivity
  pub nc_asm_button_function : Prop Function
  pub play_volume : Prop ℕ
  pub play_control : Prop PlaybackControl
  pub speak_to_chat_enabled : Prop Bool
  pub speak_to_chat_detect_sensitivity : Prop DetectSensitivity
  pub speak_to_mode_out_time : Prop ModeOutTime
  pub bgm_mode_enabled : Prop Bool
  pub bgm_mode_room_size : Prop RoomSize
  pub upmix_cinema_enabled : Prop Bool
  pub eq_available : Prop Bool
  pub eq_preset_id : Prop EqPresetId
  pub eq_clear_bass : Prop ℤ
  pub eq_config : Prop (List ℤ)
  pub upscaling_enabled : Prop Bool
  pub auto_power_off : Prop AutoPowerOffElements
  pub auto_pause_enabled : Prop Bool
  pub voice_guidance_enabled : Prop Bool
  pub voice_guidance_volume : Prop ℤ
  pub touch_function_left : Prop Preset
  pub touch_function_right : Prop Preset
  pub head_gesture_enabled : Prop Bool
  pub gs_param_bool : Four (Prop Bool)
  pub multipoint_request : Prop (Option MultipointRequest)

abbrev pub default_properties : Properties
default_properties = record {
  shutdown = fresh false;
  nc_asm_enabled = fresh false;
  nc_asm_mode = fresh NcAsmMode.nc;
  nc_asm_ambient_level = fresh 12;
  nc_asm_focus_on_voice = fresh false;
  nc_asm_auto_asm_enabled = fresh false;
  nc_asm_noise_adaptive_sensitivity = fresh NoiseAdaptiveSensitivity.standard;
  nc_asm_button_function = fresh Function.nc_asm;
  play_volume = fresh 12;
  play_control = fresh PlaybackControl.key_off;
  speak_to_chat_enabled = fresh false;
  speak_to_chat_detect_sensitivity = fresh DetectSensitivity.auto;
  speak_to_mode_out_time = fresh ModeOutTime.mid;
  bgm_mode_enabled = fresh false;
  bgm_mode_room_size = fresh RoomSize.small;
  upmix_cinema_enabled = fresh false;
  eq_available = fresh false;
  eq_preset_id = fresh EqPresetId.off;
  eq_clear_bass = fresh (pos 0);
  eq_config = fresh [];
  upscaling_enabled = fresh false;
  auto_power_off = fresh AutoPowerOffElements.power_off_disable;
  auto_pause_enabled = fresh false;
  voice_guidance_enabled = fresh true;
  voice_guidance_volume = fresh (pos 0);
  touch_function_left = fresh Preset.playback_control;
  touch_function_right = fresh Preset.playback_control;
  head_gesture_enabled = fresh false;
  gs_param_bool = record {
    at0 = fresh false;
    at1 = fresh false;
    at2 = fresh false;
    at3 = fresh false;
  };
  multipoint_request = fresh none;
}

-- `self.gs_param_bool.iter().any(|p| p.dirty())`.
unfoldable pub any_dirty : Four (Prop Bool) → Bool
any_dirty g = dirty g.at0 || dirty g.at1 || dirty g.at2 || dirty g.at3

unfoldable pub is_dirty : Properties → Bool
unfolding any_dirty
is_dirty p =
    dirty p.shutdown
    || dirty p.nc_asm_enabled
    || dirty p.nc_asm_mode
    || dirty p.nc_asm_ambient_level
    || dirty p.nc_asm_focus_on_voice
    || dirty p.nc_asm_auto_asm_enabled
    || dirty p.nc_asm_noise_adaptive_sensitivity
    || dirty p.nc_asm_button_function
    || dirty p.play_volume
    || dirty p.play_control
    || dirty p.speak_to_chat_enabled
    || dirty p.speak_to_chat_detect_sensitivity
    || dirty p.speak_to_mode_out_time
    || dirty p.bgm_mode_enabled
    || dirty p.bgm_mode_room_size
    || dirty p.upmix_cinema_enabled
    || dirty p.eq_available
    || dirty p.eq_preset_id
    || dirty p.eq_clear_bass
    || dirty p.eq_config
    || dirty p.upscaling_enabled
    || dirty p.auto_power_off
    || dirty p.auto_pause_enabled
    || dirty p.voice_guidance_enabled
    || dirty p.voice_guidance_volume
    || dirty p.touch_function_left
    || dirty p.touch_function_right
    || dirty p.head_gesture_enabled
    || any_dirty p.gs_param_bool
    || dirty p.multipoint_request

-- `v` is an `i32`.
unfoldable pub set_volume : Properties → ℤ → Properties
set_volume p v = record p {
  play_volume = desire p.play_volume (as_u8 (clamp_ℤ v (pos 0) (pos 30)));
}

unfoldable pub nudge_volume : Properties → ℤ → Properties
unfolding set_volume
nudge_volume p delta = set_volume p (add_i32 (pos p.play_volume.desired) delta)

unfoldable pub nudge_ambient_level : Properties → ℤ → Properties
nudge_ambient_level p delta = record p {
  nc_asm_ambient_level =
      desire p.nc_asm_ambient_level
        (as_u8 (clamp_ℤ (add_i32 (pos p.nc_asm_ambient_level.desired) delta) (pos 1) (pos 20)));
}

unfoldable pub set_eq_config : Properties → List ℤ → Properties
set_eq_config p gains = record p { eq_config = desire p.eq_config gains }

-- The range of a band: ten steps for five bands, six otherwise.
unfoldable pub band_limit : List ℤ → ℕ
band_limit gains = if length gains == 5 then 10 else 6

unfoldable pub nudge_gain : ℕ → ℤ → ℤ → ℤ
nudge_gain limit gain delta =
    as_i8 (as_u8 (clamp_ℤ (add_i32 gain delta) (negsuc (limit - 1)) (pos limit)))

unfoldable pub nudge_eq_band : Properties → ℕ → ℤ → Properties
unfolding nudge_gain band_limit
nudge_eq_band p band delta =
    let gains = p.eq_config.desired in
    elim (get_elem? gains band) [
      | none ↦ p
      | some g ↦ record p {
        eq_config = desire p.eq_config (set gains band (nudge_gain (band_limit gains) g delta));
      }
    ]
