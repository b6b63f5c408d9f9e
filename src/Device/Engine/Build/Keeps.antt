-- ===== src/Device/Engine/Build/Keeps.antt =====
-- src/device/engine.rs: what the requests leave of the equalizer's bands.
use sony_buds_tray_control.Device.Engine.Build.Block.{Block, run}
use sony_buds_tray_control.Device.Engine.Build.Commit.{build_commit_steps, commit_blocks}
use sony_buds_tray_control.Device.Engine.Build.Init.{build_init_steps}
use sony_buds_tray_control.Device.Engine.Build.Request.{
  begin, begin_commit, request_commit, request_init, request_sync,
}
use sony_buds_tray_control.Device.Engine.Build.Settings.{
  auto_pause_block, auto_power_off_block, gs_block, head_gesture_block, multipoint_block, stc_block,
  touch_block, voice_block,
}
use sony_buds_tray_control.Device.Engine.Build.Sound.{
  button_block, dsee_block, eq_config_block, eq_config_built, eq_preset_block, listening_block,
  nc_asm_block, play_control_block, shutdown_block, volume_block,
}
use sony_buds_tray_control.Device.Engine.Build.Sync.{build_sync_steps}
use sony_buds_tray_control.Device.Engine.Defs.{Engine, EngineError, Step, is_ready}
use sony_buds_tray_control.Device.Engine.Dispatch.Keeps.{band_count, max_bands}
use sony_buds_tray_control.Device.Engine.Runner.{begin_task, new_task, put_task}
use sony_buds_tray_control.Device.Engine.Stable.{BandsOk, advance_task-props, gains}
use sony_buds_tray_control.Device.Properties.{Properties, is_dirty}
use sony_buds_tray_control.Device.State.{DeviceState, SupportFunctions, dirty}
use sony_buds_tray_control.Prelude.{
  All, Bool-cases, List, Option, Result, [], ap, arith, bool_eq, inl, inr, int_eq, list_eq, nat_eq,
  none, option_eq, refl, some, ℕ, ℤ, ◌||◌, ◌∙◌, ◌∷◌, ◌≡◌, ◌≤◌,
}
use sony_buds_tray_control.Protocol.Enums.{enum_eq}

abbrev BlockKeeps : Block → Type 0
BlockKeeps b = (p : Properties) → gains (b p).1 ≡ gains p

run-gains : (bs : List Block) → All BlockKeeps bs → BlockKeeps (run bs)
unfolding run
run-gains [] h p = refl
run-gains (b ∷ bs) h p = run-gains bs h.1 (b p).1 ∙ h.0 p

shutdown_block-gains : (s : SupportFunctions) → BlockKeeps (shutdown_block s)
unfolding shutdown_block
shutdown_block-gains s p = ground arith

play_control_block-gains : BlockKeeps play_control_block
unfolding play_control_block
play_control_block-gains p = ground arith

multipoint_block-gains : (s : SupportFunctions) → BlockKeeps (multipoint_block s)
unfolding multipoint_block
multipoint_block-gains s p = ground arith

eq_config_built-gains :
    (p : Properties) (bands : List ℤ) → gains (eq_config_built p bands).1 ≡ gains p
eq_config_built-gains p [] = refl
eq_config_built-gains p (_ ∷ _) = refl

eq_config_block-gains : BlockKeeps eq_config_block
unfolding eq_config_block
eq_config_block-gains p = elim (Bool-cases (dirty p.eq_config || dirty p.eq_clear_bass)) [
  | inl yes' ↦ rw (eq_config_block, yes') (eq_config_built-gains p p.eq_config.desired)
  | inr no' ↦ rw (eq_config_block, no') refl
]

build_commit_steps-gains :
    (st : DeviceState) (p : Properties) → gains (build_commit_steps st p).1 ≡ gains p
unfolding build_commit_steps commit_blocks nc_asm_block button_block volume_block stc_block
    listening_block eq_preset_block dsee_block touch_block head_gesture_block auto_power_off_block
    auto_pause_block voice_block gs_block
build_commit_steps-gains st p =
    let s = st.support in
    run-gains (commit_blocks s)
      (
        shutdown_block-gains s,
        (
          (λ q. refl),
          (
            (λ q. refl),
            (
              (λ q. refl),
              (
                play_control_block-gains,
                (
                  multipoint_block-gains s,
                  (
                    (λ q. refl),
                    (
                      (λ q. refl),
                      (
                        (λ q. refl),
                        (
                          eq_config_block-gains,
                          (
                            (λ q. refl),
                            (
                              (λ q. refl),
                              (
                                (λ q. refl),
                                ((λ q. refl), ((λ q. refl), ((λ q. refl), ((λ q. refl), tt)))),
                              ),
                            ),
                          ),
                        ),
                      ),
                    ),
                  ),
                ),
              ),
            ),
          ),
        ),
      )
      p

-- The equalizer of what a request leaves has few bands.
abbrev pub Few : Option (Result EngineError (Unit {0}) × Engine) → Type 0
Few none = Unit
Few (some (_, e)) = BandsOk e

begin_task-bands :
    (now : ℕ) (steps : List Step) (e : Engine) → band_count (begin_task now steps e) ≡ band_count e
unfolding begin_task
begin_task-bands now steps e = ap gains (advance_task-props now (put_task e (new_task steps)))

begin-Few :
    (now : ℕ) (e : Engine) (steps : Option (List Step)) → BandsOk e → Few (begin now e steps)
begin-Few now e none few = tt
begin-Few now e (some steps) few = omega (arith, begin_task-bands now steps e, few)

pub request_init-Few : (now : ℕ) (e : Engine) → BandsOk e → Few (request_init now e)
unfolding request_init
request_init-Few now e few = elim (Bool-cases (is_ready e)) [
  | inl free ↦ rw (request_init, free) (begin-Few now e (build_init_steps e.state) few)
  | inr busy ↦ rw (request_init, busy) few
]

pub request_sync-Few : (now : ℕ) (e : Engine) → BandsOk e → Few (request_sync now e)
unfolding request_sync
request_sync-Few now e few = elim (Bool-cases (is_ready e)) [
  | inl free ↦ rw (request_sync, free) (begin-Few now e (build_sync_steps e.state) few)
  | inr busy ↦ rw (request_sync, busy) few
]

begin_commit-Few :
    (now : ℕ) (e : Engine) (b : Option (List Step) × Properties)
    → gains b.1 ≤ max_bands
    → Few (begin_commit now e b)
begin_commit-Few now e (none, p) few = tt
begin_commit-Few now e (some [], p) few = few
begin_commit-Few now e (some (s ∷ ss), p) few =
    omega (arith, begin_task-bands now (s ∷ ss) (record e { props = p }), few)

pub request_commit-Few : (now : ℕ) (e : Engine) → BandsOk e → Few (request_commit now e)
unfolding request_commit
request_commit-Few now e few = elim (Bool-cases (is_ready e)) [
  | inr busy ↦ rw (request_commit, busy) few
  | inl free ↦ elim (Bool-cases (is_dirty e.props)) [
    | inr clean ↦ rw (request_commit, free, clean) few
    | inl changed ↦
        rw (request_commit, free, changed)
          (begin_commit-Few now e (build_commit_steps e.state e.props)
            (omega (arith, build_commit_steps-gains e.state e.props, few)))
  ]
]
