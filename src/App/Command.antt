-- ===== src/App/Command.antt =====
-- src/app.rs: `apply_command`. `none` is a panic of the builder of a synchronisation.
use sony_buds_tray_control.App.Connection.{save, teardown}
use sony_buds_tray_control.App.Defs.{AmbientSel, AppCore, ConnState, Link, Outside, UiCommand}
use sony_buds_tray_control.Device.Engine.Build.Request.{request_sync}
use sony_buds_tray_control.Device.Properties.{
  Four, Properties, nudge_ambient_level, nudge_volume, set_volume,
}
use sony_buds_tray_control.Device.State.{
  DeviceState, MultipointRequest, Prop, contains_t1, desire, request_eq,
}
use sony_buds_tray_control.Prelude.{
  Bool, Option, bool_eq, clamp, clamp_ℤ, eq, false, if◌then◌else◌, int_eq, list_eq, nat_eq, negsuc,
  none, not, option_eq, pos, some, suc, true, zero, ℕ, ◌&&◌, ◌==◌, ◌||◌,
}
use sony_buds_tray_control.Protocol.Enums.{
  FunctionTable1, NcAsmMode, PlaybackControl, PlaybackStatus, enum_eq, eq_preset_id_enum,
  function_table1_enum, nc_asm_mode_enum, playback_control_enum, playback_status_enum,
}

unfoldable pub cycle_ambient : Bool → Bool → NcAsmMode → Bool × NcAsmMode
cycle_ambient true true NcAsmMode.nc = (true, NcAsmMode.asm)
cycle_ambient true true _ = (false, NcAsmMode.nc)
cycle_ambient true false _ = (true, NcAsmMode.nc)
cycle_ambient false true _ = (false, NcAsmMode.nc)
cycle_ambient false false _ = (true, NcAsmMode.nc)

unfoldable pub ambient_supported : DeviceState → Bool
unfolding contains_t1
ambient_supported st =
    let s = st.support in
    contains_t1 s FunctionTable1.noise_cancelling_on_off
    || contains_t1 s FunctionTable1.noise_cancelling_on_off_and_ambient_sound_mode_on_off
    || contains_t1 s FunctionTable1.ambient_sound_mode_on_off
    || contains_t1 s FunctionTable1.ambient_sound_mode_level_adjustment
    || contains_t1 s
        FunctionTable1.mode_nc_asm_noise_cancelling_dual_ambient_sound_mode_level_adjustment
    || contains_t1 s
        FunctionTable1.mode_nc_asm_noise_cancelling_dual_ambient_sound_mode_level_adjustment_noise_adaptation
    || contains_t1 s
        FunctionTable1.mode_nc_asm_noise_cancelling_dual_single_ambient_sound_mode_level_adjustment

-- The level that ambient sound starts at, when there was none.
abbrev pub raise_level : Bool → Properties → Properties
raise_level false p = p
raise_level true p =
    if p.nc_asm_ambient_level.desired == 0
    then record p { nc_asm_ambient_level = desire p.nc_asm_ambient_level 20 }
    else p

abbrev pub put_ambient : Bool → NcAsmMode → Properties → Properties
put_ambient on mode p = record p {
  nc_asm_enabled = desire p.nc_asm_enabled on;
  nc_asm_mode = desire p.nc_asm_mode mode;
}

unfoldable pub set_ambient_mode : AmbientSel → Properties → Properties
set_ambient_mode AmbientSel.nc p = put_ambient true NcAsmMode.nc p
set_ambient_mode AmbientSel.asm p = raise_level true (put_ambient true NcAsmMode.asm p)
set_ambient_mode AmbientSel.off p = put_ambient false NcAsmMode.nc p

unfoldable pub cycle_ambient_mode : DeviceState → Properties → Properties
unfolding cycle_ambient ambient_supported
cycle_ambient_mode st p =
    let next =
      cycle_ambient (ambient_supported st) p.nc_asm_enabled.current p.nc_asm_mode.current in
    raise_level (next.0 && eq next.1 NcAsmMode.asm) (put_ambient next.0 next.1 p)

-- `gs_param_bool.get_mut(idx)`.
unfoldable pub set_gs : ℕ → Bool → Four (Prop Bool) → Four (Prop Bool)
set_gs zero v g = record g { at0 = desire g.at0 v }
set_gs (suc zero) v g = record g { at1 = desire g.at1 v }
set_gs (suc (suc zero)) v g = record g { at2 = desire g.at2 v }
set_gs (suc (suc (suc zero))) v g = record g { at3 = desire g.at3 v }
set_gs (suc (suc (suc (suc _)))) v g = g

abbrev play_pause_control : PlaybackStatus → PlaybackControl
play_pause_control PlaybackStatus.play = PlaybackControl.pause
play_pause_control _ = PlaybackControl.play

-- What a command does to the values of a connected device; `none` if it is not about them.
unfoldable pub setting : UiCommand → DeviceState → Properties → Option Properties
unfolding clamp set_volume nudge_volume nudge_ambient_level set_ambient_mode cycle_ambient_mode
    set_gs
setting UiCommand.shutdown st p = some (record p { shutdown = desire p.shutdown true })
setting (UiCommand.set_volume v) st p = some (set_volume p (pos v))
setting UiCommand.volume_up st p = some (nudge_volume p (pos 1))
setting UiCommand.volume_down st p = some (nudge_volume p (negsuc 0))
setting UiCommand.play_pause st p =
    some (record p { play_control = desire p.play_control (play_pause_control st.play_status) })
setting UiCommand.prev_track st p =
    some (record p { play_control = desire p.play_control PlaybackControl.track_down })
setting UiCommand.next_track st p =
    some (record p { play_control = desire p.play_control PlaybackControl.track_up })
setting (UiCommand.set_ambient_mode mode) st p = some (set_ambient_mode mode p)
setting UiCommand.cycle_ambient_mode st p = some (cycle_ambient_mode st p)
setting (UiCommand.set_ambient_level v) st p =
    some (record p { nc_asm_ambient_level = desire p.nc_asm_ambient_level (clamp v 1 20) })
setting UiCommand.ambient_up st p = some (nudge_ambient_level p (pos 1))
setting UiCommand.ambient_down st p = some (nudge_ambient_level p (negsuc 0))
setting (UiCommand.set_voice_passthrough v) st p =
    some (record p { nc_asm_focus_on_voice = desire p.nc_asm_focus_on_voice v })
setting (UiCommand.set_auto_asm v) st p =
    some (record p { nc_asm_auto_asm_enabled = desire p.nc_asm_auto_asm_enabled v })
setting (UiCommand.set_noise_sensitivity v) st p =
    some (record p {
      nc_asm_noise_adaptive_sensitivity = desire p.nc_asm_noise_adaptive_sensitivity v;
    })
setting (UiCommand.set_speak_to_chat v) st p =
    some (record p { speak_to_chat_enabled = desire p.speak_to_chat_enabled v })
setting (UiCommand.set_stc_sensitivity v) st p =
    some
      (record p { speak_to_chat_detect_sensitivity = desire p.speak_to_chat_detect_sensitivity v })
setting (UiCommand.set_stc_mode_out v) st p =
    some (record p { speak_to_mode_out_time = desire p.speak_to_mode_out_time v })
setting (UiCommand.set_eq_preset v) st p =
    some (record p { eq_preset_id = desire p.eq_preset_id v })
setting (UiCommand.set_dsee v) st p =
    some (record p { upscaling_enabled = desire p.upscaling_enabled v })
setting (UiCommand.set_auto_power_off v) st p =
    some (record p { auto_power_off = desire p.auto_power_off v })
setting (UiCommand.set_auto_pause v) st p =
    some (record p { auto_pause_enabled = desire p.auto_pause_enabled v })
setting (UiCommand.set_voice_guidance v) st p =
    some (record p { voice_guidance_enabled = desire p.voice_guidance_enabled v })
setting (UiCommand.set_voice_guidance_volume v) st p = some (record p {
  voice_guidance_volume = desire p.voice_guidance_volume (clamp_ℤ v (negsuc 1) (pos 2));
})
setting (UiCommand.set_touch_preset_left v) st p =
    some (record p { touch_function_left = desire p.touch_function_left v })
setting (UiCommand.set_touch_preset_right v) st p =
    some (record p { touch_function_right = desire p.touch_function_right v })
setting (UiCommand.set_head_gesture v) st p =
    some (record p { head_gesture_enabled = desire p.head_gesture_enabled v })
setting (UiCommand.set_bgm_mode v) st p =
    some (record p { bgm_mode_enabled = desire p.bgm_mode_enabled v })
setting (UiCommand.set_bgm_room_size v) st p =
    some (record p { bgm_mode_room_size = desire p.bgm_mode_room_size v })
setting (UiCommand.set_cinema v) st p =
    some (record p { upmix_cinema_enabled = desire p.upmix_cinema_enabled v })
setting (UiCommand.set_general_setting idx v) st p =
    some (record p { gs_param_bool = set_gs idx v p.gs_param_bool })
setting (UiCommand.multipoint_switch a) st p = some (record p {
  multipoint_request = desire p.multipoint_request (some (MultipointRequest.switch a));
})
setting (UiCommand.multipoint_connect a) st p = some (record p {
  multipoint_request = desire p.multipoint_request (some (MultipointRequest.connect a));
})
setting _ st p = none

module _ {W C : Type 0} where
  -- `if let Some(engine) = self.engine.as_mut()`, and a change of its values.
  abbrev pub put_setting : UiCommand → AppCore W C → AppCore W C
  put_setting cmd app = elim app.engine [
    | none ↦ app
    | some l ↦ elim (setting cmd l.engine.state l.engine.props) [
      | none ↦ app
      | some p ↦ record app {
        engine = some (record { engine = record l.engine { props = p }; conn = l.conn });
      }
    ]
  ]

  abbrev changed : AppCore W C → Option (AppCore W C)
  changed app = some (record app { menu_dirty = true })

module _ {W C : Type 0} (out : Outside W C) where
  -- `engine.request_sync()`, its result ignored.
  abbrev pub sync : Link C → AppCore W C → Option (AppCore W C)
  sync l app =
      let read = out.now app.world in
      elim (request_sync read.0 l.engine) [
        | none ↦ none
        | some (_, e) ↦
            changed
              (record app { engine = some (record { engine = e; conn = l.conn }); world = read.1 })
      ]

  unfoldable pub apply_command : UiCommand → AppCore W C → Option (AppCore W C)
  unfolding setting request_sync teardown
  apply_command UiCommand.refresh_devices app = changed (record app { refresh_pending = true })
  apply_command UiCommand.refresh_sync app = elim app.engine [
    | none ↦ changed app
    | some l ↦ sync l app
  ]
  apply_command (UiCommand.set_transport kind) app = changed (record app { transport_kind = kind })
  apply_command (UiCommand.connect mac) app = elim app.conn_state [
    | ConnState.connected ↦ some app
    | ConnState.connecting ↦ some app
    | _ ↦
        let saved =
          save out (record app { config = record app.config { last_device = some mac } }) in
        changed (record saved { connected_mac = some mac; conn_state = ConnState.connecting })
  ]
  apply_command UiCommand.disconnect app = changed (teardown out none app)
  apply_command (UiCommand.set_auto_connect v) app = changed (
      save out (record app {
        config = record app.config { auto_connect = v };
        reconnect = if not v then false else app.reconnect;
      }))
  apply_command UiCommand.quit app = changed app
  apply_command cmd app = changed (put_setting cmd app)
