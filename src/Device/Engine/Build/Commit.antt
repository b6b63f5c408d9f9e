-- ===== src/Device/Engine/Build/Commit.antt =====
-- src/device/engine.rs, `build_commit_steps`: the blocks in the order of the source, and the step that
-- ends the task.
use sony_buds_tray_control.Device.Engine.Build.Block.{Block, run}
use sony_buds_tray_control.Device.Engine.Build.Common.{sequence}
use sony_buds_tray_control.Device.Engine.Build.Settings.{
  auto_pause_block, auto_power_off_block, gs_block, head_gesture_block, multipoint_block, stc_block,
  touch_block, voice_block,
}
use sony_buds_tray_control.Device.Engine.Build.Sound.{
  button_block, dsee_block, eq_config_block, eq_preset_block, listening_block, nc_asm_block,
  play_control_block, shutdown_block, volume_block,
}
use sony_buds_tray_control.Device.Engine.Defs.{Step, commit_ok, done}
use sony_buds_tray_control.Device.Properties.{Properties}
use sony_buds_tray_control.Device.State.{DeviceState, SupportFunctions}
use sony_buds_tray_control.Prelude.{List, Option, [], some, ◌++◌, ◌∷◌}

unfoldable pub commit_blocks : SupportFunctions → List Block
unfolding shutdown_block nc_asm_block button_block volume_block play_control_block multipoint_block
    stc_block listening_block eq_preset_block eq_config_block dsee_block touch_block
    head_gesture_block auto_power_off_block auto_pause_block voice_block gs_block
commit_blocks s =
    shutdown_block s
    ∷ nc_asm_block s
    ∷ button_block s
    ∷ volume_block
    ∷ play_control_block
    ∷ multipoint_block s
    ∷ stc_block s
    ∷ listening_block s
    ∷ eq_preset_block
    ∷ eq_config_block
    ∷ dsee_block s
    ∷ touch_block s
    ∷ head_gesture_block s
    ∷ auto_power_off_block s
    ∷ auto_pause_block s
    ∷ voice_block s
    ∷ gs_block s
    ∷ []

-- The steps, and the values with the requests that are sent once taken out.
unfoldable pub build_commit_steps : DeviceState → Properties → Option (List Step) × Properties
unfolding run commit_blocks sequence
build_commit_steps st p =
    let built = run (commit_blocks st.support) p in
    (sequence (built.0 ++ some (done commit_ok) ∷ []), built.1)
