-- ===== src/Device/Engine/Build/CommitTotal.antt =====
-- src/device/engine.rs: the results of `build_commit_steps` and `request_commit`.
use sony_buds_tray_control.Protocol.Codec.Writer
use sony_buds_tray_control.Device.Engine.Build.Block.{send_commit, send_commit_t2}
use sony_buds_tray_control.Device.Engine.Build.Commit.{build_commit_steps, commit_blocks}
use sony_buds_tray_control.Device.Engine.Build.Fits.{
  BandsFit, BlockOk, button_block-ok, dsee_block-ok, eq_config_block-ok, eq_preset_block-ok,
  listening_block-ok, multipoint_block-ok, nc_asm_block-ok, play_control_block-ok, run-ok,
  shutdown_block-ok, volume_block-ok,
}
use sony_buds_tray_control.Device.Engine.Build.Request.{begin_commit, request_commit}
use sony_buds_tray_control.Device.Engine.Build.Settings.{
  auto_pause_block, auto_power_off_block, gs_block, head_gesture_block, stc_block, touch_block,
  voice_block,
}
use sony_buds_tray_control.Device.Engine.Build.Total.{IsSome, Started, sequence-IsSome}
use sony_buds_tray_control.Device.Engine.Defs.{Engine, Step, commit_ok, done, is_ready}
use sony_buds_tray_control.Device.Engine.Invariant.{EngineOk, begin_task-EngineOk}
use sony_buds_tray_control.Device.Properties.{Properties, is_dirty}
use sony_buds_tray_control.Device.State.{DeviceState, SupportFunctions}
use sony_buds_tray_control.Prelude.{
  All, All-append, Bool-cases, List, Option, [], arith, inl, inr, none, some, ℕ, ◌∷◌,
}
use sony_buds_tray_control.Protocol.Codec.Writer.{Writer}
use sony_buds_tray_control.Protocol.Payloads.{serialize}

stc_block-ok : (s : SupportFunctions) → BlockOk (stc_block s)
unfolding stc_block send_commit serialize Writer.u8
stc_block-ok s p fit = ground arith

touch_block-ok : (s : SupportFunctions) → BlockOk (touch_block s)
unfolding touch_block send_commit serialize Writer.u8 Writer.pod_array
touch_block-ok s p fit = ground arith

head_gesture_block-ok : (s : SupportFunctions) → BlockOk (head_gesture_block s)
unfolding head_gesture_block send_commit serialize Writer.u8
head_gesture_block-ok s p fit = ground arith

auto_power_off_block-ok : (s : SupportFunctions) → BlockOk (auto_power_off_block s)
unfolding auto_power_off_block send_commit serialize Writer.u8
auto_power_off_block-ok s p fit = ground arith

auto_pause_block-ok : (s : SupportFunctions) → BlockOk (auto_pause_block s)
unfolding auto_pause_block send_commit serialize Writer.u8
auto_pause_block-ok s p fit = ground arith

voice_block-ok : (s : SupportFunctions) → BlockOk (voice_block s)
unfolding voice_block send_commit_t2 serialize Writer.u8
voice_block-ok s p fit = ground arith

gs_block-ok : (s : SupportFunctions) → BlockOk (gs_block s)
unfolding gs_block send_commit serialize Writer.u8
gs_block-ok s p fit = ground arith

commit_blocks-ok : (s : SupportFunctions) → All BlockOk (commit_blocks s)
unfolding commit_blocks
commit_blocks-ok s = (
  shutdown_block-ok s,
  (
    nc_asm_block-ok s,
    (
      button_block-ok s,
      (
        volume_block-ok,
        (
          play_control_block-ok,
          (
            multipoint_block-ok s,
            (
              stc_block-ok s,
              (
                listening_block-ok s,
                (
                  eq_preset_block-ok,
                  (
                    eq_config_block-ok,
                    (
                      dsee_block-ok s,
                      (
                        touch_block-ok s,
                        (
                          head_gesture_block-ok s,
                          (
                            auto_power_off_block-ok s,
                            (auto_pause_block-ok s, (voice_block-ok s, (gs_block-ok s, tt))),
                          ),
                        ),
                      ),
                    ),
                  ),
                ),
              ),
            ),
          ),
        ),
      ),
    ),
  ),
)

pub build_commit_steps-IsSome :
    (st : DeviceState) (p : Properties) → BandsFit p → IsSome (build_commit_steps st p).0
unfolding build_commit_steps
build_commit_steps-IsSome st p fit =
    let built = run-ok (commit_blocks st.support) (commit_blocks-ok st.support) p fit in
    sequence-IsSome _ (All-append IsSome _ (some (done commit_ok) ∷ []) built.0 (tt, tt))

begin_commit-Started :
    (now : ℕ) (e : Engine) (b : Option (List Step) × Properties)
    → IsSome b.0
    → EngineOk e
    → Started (begin_commit now e b)
begin_commit-Started now e (none, p) h good = absurd h
begin_commit-Started now e (some [], p) h good = good
begin_commit-Started now e (some (s ∷ ss), p) h good =
    begin_task-EngineOk now (s ∷ ss) (record e { props = p }) good.0

-- On an engine in order the request to commit does not panic, whatever the device supports and
-- whatever the settable values hold, if the equalizer has at most 59 bands or has nothing to send; and
-- it leaves an engine in order, whether a task was running, nothing had changed, or the task of the
-- request was started.
pub request_commit-Started :
    (now : ℕ) (e : Engine) → EngineOk e → BandsFit e.props → Started (request_commit now e)
unfolding request_commit
request_commit-Started now e good fit = elim (Bool-cases (is_ready e)) [
  | inr busy ↦ rw (request_commit, busy) good
  | inl free ↦ elim (Bool-cases (is_dirty e.props)) [
    | inr clean ↦ rw (request_commit, free, clean) good
    | inl changed ↦
        rw (request_commit, free, changed)
          (begin_commit-Started now e (build_commit_steps e.state e.props)
            (build_commit_steps-IsSome e.state e.props fit) good)
  ]
]
