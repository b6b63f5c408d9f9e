-- ===== src/Device/Engine/Stable.antt =====
-- src/device/engine.rs: what every part of `poll` preserves, as an interface for the facts about an
-- engine.
-- A fact about an engine that the parts of `poll` preserve.
use sony_buds_tray_control.Device.Engine.Defs.{
  Engine, Outcome, PropCommit, Step, Task, Wait, apply, await, done, if_support1, if_support2_any,
  if_table2, nc_asm_query, send, wait_eq,
}
use sony_buds_tray_control.Device.Engine.Dispatch.Keeps.{Keeps, band_count, max_bands}
use sony_buds_tray_control.Device.Engine.Invariant.{
  EngineOk, TaskOk, advance_on-EngineOk, advance_on_awaited, advance_on_idle, advance_on_other,
  check_deadline-EngineOk, idle_task, step_completed-EngineOk,
}
use sony_buds_tray_control.Device.Engine.Runner.{
  advance_on, advance_task, check_deadline, fail_task, front_commit, send_command, start,
  step_completed, tail,
}
use sony_buds_tray_control.Device.Properties.{Properties}
use sony_buds_tray_control.Device.State.{DeviceState}
use sony_buds_tray_control.Prelude.{
  Bool-cases, List, Option-cases, [], ap, arith, bool_eq, eq, inl, inr, int_eq, length, list_eq,
  nat_eq, none, option_eq, refl, some, subst, sym, ℕ, ◌∙◌, ◌∷◌, ◌≡◌, ◌≤◌,
}
use sony_buds_tray_control.Protocol.Enums.{enum_eq}

pub record Stable (Good : Engine → Type 0) : Type 0 where
  pub kept : (e : Engine) (o : Outcome) → Keeps e o → Good e → Good o.0
  pub put_state : (e : Engine) (st : DeviceState) → Good e → Good (record e { state = st })
  pub put_buffers :
      (e : Engine) (r s : List ℕ) → Good e → Good (record e { recv_buf = r; send_buf = s })
  pub advanced : (now : ℕ) (w : Wait) (e : Engine) → Good e → Good (advance_on now w e).0
  pub checked : (now : ℕ) (e : Engine) → Good e → Good (check_deadline now e).0
  pub completed : (e : Engine) → Good e → Good (step_completed e).0

kept-EngineOk : (e : Engine) (o : Outcome) → Keeps e o → EngineOk e → EngineOk o.0
kept-EngineOk e o k good = (omega (arith, k.1, good.0), subst TaskOk (sym k.0) good.1)

pub EngineOk-Stable : Stable EngineOk
EngineOk-Stable = record {
  kept = kept-EngineOk;
  put_state = λ e st good. good;
  put_buffers = λ e r s good. good;
  advanced = advance_on-EngineOk;
  checked = check_deadline-EngineOk;
  completed = step_completed-EngineOk;
}

-- The equalizer has few bands.
abbrev pub BandsOk : Engine → Type 0
BandsOk e = band_count e ≤ max_bands

abbrev pub gains : Properties → ℕ
gains p = length p.eq_config.desired

apply-bands :
    (c : PropCommit) (p : Properties)
    → length (apply c p).eq_config.desired ≡ length p.eq_config.desired
unfolding apply
apply-bands c p = ground arith

front_commit-bands :
    (steps : List Step) (p : Properties)
    → length (front_commit steps p).eq_config.desired ≡ length p.eq_config.desired
front_commit-bands [] p = refl
front_commit-bands (send _ _ _ (some c) ∷ _) p = apply-bands c p
front_commit-bands (send _ _ _ none ∷ _) p = refl
front_commit-bands (await _ ∷ _) p = refl
front_commit-bands (if_table2 _ ∷ _) p = refl
front_commit-bands (if_support1 _ _ ∷ _) p = refl
front_commit-bands (if_support2_any _ _ ∷ _) p = refl
front_commit-bands (nc_asm_query ∷ _) p = refl
front_commit-bands (done _ ∷ _) p = refl

start-props : (now : ℕ) (e : Engine) (t : Task) → (start now e t).props ≡ e.props
unfolding start send_command
start-props now e t = ground arith

pub advance_task-props : (now : ℕ) (e : Engine) → (advance_task now e).props ≡ e.props
unfolding advance_task
advance_task-props now e = elim (Option-cases e.task) [
  | inl idle ↦ rw (advance_task, idle) refl
  | inr (t, task) ↦ rw (advance_task, task) (start-props now e _)
]

step_completed-props : (e : Engine) → (step_completed e).0.props ≡ e.props
unfolding step_completed
step_completed-props e = ground arith

advance_on-bands :
    (now : ℕ) (w : Wait) (e : Engine) → band_count (advance_on now w e).0 ≡ band_count e
advance_on-bands now w e = elim (Option-cases e.task) [
  | inl idle ↦ ap band_count (advance_on_idle now w e idle)
  | inr (t, task) ↦ elim (Bool-cases (eq t.current_wait (some w))) [
    | inr other ↦ ap band_count (advance_on_other now w e t task other)
    | inl awaited ↦
        let e' : Engine = record e {
          props = front_commit t.steps e.props;
          task = some (idle_task (tail t.steps) t.last_send t.retries);
        } in
        let moved = advance_task now e' in
        ap (λ o. band_count o.0) (advance_on_awaited now w e t task awaited)
        ∙ (ap gains (step_completed-props moved)
            ∙ (ap gains (advance_task-props now e') ∙ front_commit-bands t.steps e.props))
  ]
]

check_deadline-props : (now : ℕ) (e : Engine) → (check_deadline now e).0.props ≡ e.props
unfolding check_deadline send_command fail_task
check_deadline-props now e = ground arith

pub BandsOk-Stable : Stable BandsOk
BandsOk-Stable = record {
  kept = λ e o k few. ground (arith, k, few);
  put_state = λ e st few. few;
  put_buffers = λ e r s few. few;
  advanced = λ now w e few. omega (arith, advance_on-bands now w e, few);
  checked = λ now e few. rw (check_deadline-props now e) few;
  completed = λ e few. rw (step_completed-props e) few;
}
