-- ===== src/Device/Engine/Invariant.antt =====
-- src/device/engine.rs: the order that an engine is in between two calls, and the operations of the
-- step machine.
use sony_buds_tray_control.Device.Engine.Defs.{
  Engine, EngineError, Step, Task, Wait, await, done, if_support1, if_support2_any, if_table2,
  max_step_retries, nc_asm_query, send, step_timeout, timeout, wait_eq,
}
use sony_buds_tray_control.Device.Engine.Runner.{
  advance_on, advance_task, begin_task, check_deadline, expand, fail_task, flip, front_commit,
  is_expired, resend, send_command, settle, start, step_completed, tail, total_weight,
}
use sony_buds_tray_control.Device.Engine.Settle.{IsSettled, settle-IsSettled}
use sony_buds_tray_control.Device.Engine.Timeout.{
  check_deadline-resend, check_deadline_fail, check_deadline_idle, resend-some, resent,
}
use sony_buds_tray_control.Device.State.{DeviceState}
use sony_buds_tray_control.Prelude.{
  Bool-cases, List, Option, Option-cases, [], arith, bool_eq, eq, false, inl, inr, int_eq, list_eq,
  nat_eq, none, option_eq, refl, some, subst, sym, true, ℕ, ◌+◌, ◌-◌, ◌∷◌, ◌≡◌, ◌≢◌, ◌≤◌, ◌⊎◌,
}
use sony_buds_tray_control.Protocol.Enums.{DataType, data_type_enum, enum_eq}

-- The step in front, what is waited for, and until when.
abbrev pub Front : List Step → Option Wait → Option ℕ → Type 0
Front [] w d = (w ≡ none) × (d ≡ none)
Front (send _ _ wait _ ∷ _) w d = (w ≡ some wait) × (d ≢ none)
Front (await wait ∷ _) w d = (w ≡ some wait) × (d ≢ none)
Front (done _ ∷ _) w d = (w ≡ none) × (d ≡ none)
Front (_ ∷ _) w d = ⊥

abbrev pub TaskOk : Option Task → Type 0
TaskOk none = Unit
TaskOk (some t) = Front t.steps t.current_wait t.deadline × (t.retries ≤ max_step_retries)

-- The sequence number alternates between 0 and 1, and the task is in order.
abbrev pub EngineOk : Engine → Type 0
EngineOk e = (e.tx_seq ≤ 1) × TaskOk e.task

pub some≢none : {A : Type 0} (a : A) → some a ≢ none
some≢none a h = cc

send_command-tx_seq :
    (payload : List ℕ) (type : DataType) (e : Engine)
    → e.tx_seq ≤ 1
    → (send_command payload type e).tx_seq ≡ 1 - e.tx_seq
unfolding send_command flip
send_command-tx_seq payload type e h = omega (arith, h)

abbrev pub idle_task : List Step → Option (List ℕ × DataType) → ℕ → Task
idle_task steps last r = record {
  steps = steps;
  deadline = none;
  current_wait = none;
  last_send = last;
  retries = r;
}

start-EngineOk :
    (now : ℕ) (e : Engine) (st : DeviceState) (steps : List Step)
    (last : Option (List ℕ × DataType)) (r : ℕ)
    → e.tx_seq ≤ 1
    → r ≤ max_step_retries
    → IsSettled st steps
    → EngineOk (start now e (idle_task steps last r))
unfolding start send_command expand flip
start-EngineOk now e st [] last r seq few h = (seq, ((refl, refl), few))
start-EngineOk now e st (send p d w c ∷ rest) last r seq few h =
    (omega (arith, seq), ((refl, some≢none _), omega arith))
start-EngineOk now e st (await w ∷ rest) last r seq few h =
    (seq, ((refl, some≢none _), omega arith))
start-EngineOk now e st (done ev ∷ rest) last r seq few h = (seq, ((refl, refl), few))
start-EngineOk now e st (if_table2 steps ∷ rest) last r seq few h = absurd cc
start-EngineOk now e st (if_support1 f steps ∷ rest) last r seq few h = absurd cc
start-EngineOk now e st (if_support2_any fs steps ∷ rest) last r seq few h = absurd cc
start-EngineOk now e st (nc_asm_query ∷ rest) last r seq few h = absurd cc

advance_task-EngineOk :
    (now : ℕ) (e : Engine) (steps : List Step) (last : Option (List ℕ × DataType)) (r : ℕ)
    → e.tx_seq ≤ 1
    → r ≤ max_step_retries
    → EngineOk (advance_task now (record e { task = some (idle_task steps last r) }))
unfolding advance_task
advance_task-EngineOk now e steps last r seq few =
    start-EngineOk now (record e { task = some (idle_task steps last r) }) e.state
      (settle (total_weight steps) e.state steps) last r seq few
      (settle-IsSettled (total_weight steps) e.state steps (omega arith))

-- A request starts its task in order, whatever the steps are.
pub begin_task-EngineOk :
    (now : ℕ) (steps : List Step) (e : Engine) → e.tx_seq ≤ 1 → EngineOk (begin_task now steps e)
unfolding begin_task
begin_task-EngineOk now steps e seq = advance_task-EngineOk now e steps none 0 seq (omega arith)

step_completed-cases :
    (e : Engine) → ((step_completed e).0 ≡ e) ⊎ ((step_completed e).0 ≡ record e { task = none })
unfolding step_completed
step_completed-cases e = ground arith

-- The end of a task keeps the engine in order.
pub step_completed-EngineOk : (e : Engine) → EngineOk e → EngineOk ((step_completed e).0)
step_completed-EngineOk e good = elim (step_completed-cases e) [
  | inl same ↦ rw same good
  | inr ended ↦ rw ended (good.0, tt)
]

pub advance_on_idle :
    (now : ℕ) (wait : Wait) (e : Engine) → e.task ≡ none → (advance_on now wait e).0 ≡ e
unfolding advance_on
advance_on_idle now wait e idle = ground arith

pub advance_on_other :
    (now : ℕ) (wait : Wait) (e : Engine) (t : Task)
    → e.task ≡ some t
    → eq t.current_wait (some wait) ≡ false
    → (advance_on now wait e).0 ≡ e
unfolding advance_on
advance_on_other now wait e t task other = ground arith

pub advance_on_awaited :
    (now : ℕ) (wait : Wait) (e : Engine) (t : Task)
    → e.task ≡ some t
    → eq t.current_wait (some wait) ≡ true
    → advance_on now wait e
      ≡ step_completed (
          advance_task now (record e {
            props = front_commit t.steps e.props;
            task = some (idle_task (tail t.steps) t.last_send t.retries);
          }))
unfolding advance_on
advance_on_awaited now wait e t task awaited = rw (advance_on, task, advance_on, awaited) refl

retries_bound :
    (e : Engine) (t : Task) → EngineOk e → e.task ≡ some t → t.retries ≤ max_step_retries
retries_bound e t good task = (subst TaskOk task good.1).1

-- A message that is waited for, or is not, keeps the engine in order.
pub advance_on-EngineOk :
    (now : ℕ) (wait : Wait) (e : Engine) → EngineOk e → EngineOk ((advance_on now wait e).0)
advance_on-EngineOk now wait e good = elim (Option-cases e.task) [
  | inl idle ↦ subst EngineOk (sym (advance_on_idle now wait e idle)) good
  | inr (t, task) ↦ elim (Bool-cases (eq t.current_wait (some wait))) [
    | inl awaited ↦
        subst (λ o. EngineOk o.0) (sym (advance_on_awaited now wait e t task awaited))
          (step_completed-EngineOk _ (
            advance_task-EngineOk now (record e { props = front_commit t.steps e.props })
              (tail t.steps) t.last_send t.retries good.0 (retries_bound e t good task)))
    | inr other ↦ subst EngineOk (sym (advance_on_other now wait e t task other)) good
  ]
]

check_deadline_early :
    (now : ℕ) (e : Engine) (t : Task)
    → e.task ≡ some t
    → is_expired now t.deadline ≡ false
    → (check_deadline now e).0 ≡ e
unfolding check_deadline
check_deadline_early now e t task early = ground arith

fail_task-EngineOk :
    (why : EngineError) (e : Engine) → e.tx_seq ≤ 1 → EngineOk ((fail_task why e).0)
unfolding fail_task
fail_task-EngineOk why e seq = (seq, tt)

-- A later deadline for a step that has one.
Front-later :
    (now : ℕ) (steps : List Step) (w : Option Wait) (d : Option ℕ) (d' : ℕ)
    → is_expired now d ≡ true
    → Front steps w d
    → Front steps w (some d')
Front-later now (send _ _ _ _ ∷ _) w d d' h front = (front.0, some≢none d')
Front-later now (await _ ∷ _) w d d' h front = (front.0, some≢none d')
Front-later now [] w (some k) d' h front = absurd (some≢none k front.1)
Front-later now (done _ ∷ _) w (some k) d' h front = absurd (some≢none k front.1)
Front-later now [] w none d' h front = absurd cc
Front-later now (done _ ∷ _) w none d' h front = absurd cc
Front-later now (if_table2 _ ∷ _) w d d' h front = front
Front-later now (if_support1 _ _ ∷ _) w d d' h front = front
Front-later now (if_support2_any _ _ ∷ _) w d d' h front = front
Front-later now (nc_asm_query ∷ _) w d d' h front = front

resent-EngineOk :
    (now : ℕ) (e : Engine) (t : Task) (last : List ℕ × DataType)
    → EngineOk e
    → e.task ≡ some t
    → is_expired now t.deadline ≡ true
    → resend t ≡ some last
    → EngineOk (resent now e t last)
unfolding send_command flip
resent-EngineOk now e t last good task expired again =
    let kept = subst TaskOk task good.1 in
    (
      omega (arith, good.0),
      (
        Front-later now t.steps t.current_wait t.deadline (now + step_timeout) expired kept.0,
        omega (arith, resend-some t last again),
      ),
    )

-- The deadline keeps the engine in order, whether the command is sent again or the task fails.
pub check_deadline-EngineOk :
    (now : ℕ) (e : Engine) → EngineOk e → EngineOk ((check_deadline now e).0)
check_deadline-EngineOk now e good = elim (Option-cases e.task) [
  | inl idle ↦ subst (λ o. EngineOk o.0) (sym (check_deadline_idle now e idle)) good
  | inr (t, task) ↦ elim (Bool-cases (is_expired now t.deadline)) [
    | inr early ↦ subst EngineOk (sym (check_deadline_early now e t task early)) good
    | inl expired ↦ elim (Option-cases (resend t)) [
      | inl over ↦
          subst (λ o. EngineOk o.0) (sym (check_deadline_fail now e t task expired over))
            (fail_task-EngineOk timeout e good.0)
      | inr (last, again) ↦
          subst (λ o. EngineOk o.0) (sym (check_deadline-resend now e t last task expired again))
            (resent-EngineOk now e t last good task expired again)
    ]
  ]
]
