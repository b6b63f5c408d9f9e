-- ===== src/Device/Engine/Timeout.antt =====
-- src/device/engine.rs: `check_deadline`, and deadlines that pass one after the other.
use sony_buds_tray_control.Device.Engine.Defs.{
  Engine, Task, max_step_retries, step_timeout, timeout,
}
use sony_buds_tray_control.Device.Engine.Runner.{
  check_deadline, fail_task, is_expired, resend, send_command,
}
use sony_buds_tray_control.Prelude.{
  List, Option-cases, arith, inl, inr, none, refl, some, subst, suc, sym, true, zero, ℕ, ◌+◌, ◌<◌,
  ◌≡◌, ◌≤◌,
}
use sony_buds_tray_control.Protocol.Enums.{DataType, data_type_enum}

-- The deadline of the task passed.
abbrev pub IsExpired : ℕ → Task → Type 0
IsExpired now t = is_expired now t.deadline ≡ true

abbrev pub TaskOf : Engine → Task → Type 0
TaskOf e t = e.task ≡ some t

pub resend-some :
    (t : Task) (last : List ℕ × DataType) → resend t ≡ some last → t.retries < max_step_retries
resend-some t last again = ground arith

-- The engine after the command is sent again.
abbrev pub resent : ℕ → Engine → Task → List ℕ × DataType → Engine
resent now e t last = record (send_command last.0 last.1 e) {
  task = some (record t { retries = t.retries + 1; deadline = some (now + step_timeout) });
}

pub check_deadline-resend :
    (now : ℕ) (e : Engine) (t : Task) (last : List ℕ × DataType)
    → TaskOf e t
    → IsExpired now t
    → resend t ≡ some last
    → check_deadline now e ≡ (resent now e t last, none)
unfolding check_deadline
check_deadline-resend now e t last task expired again =
    rw (check_deadline, task, check_deadline, expired, again) refl

pub check_deadline_fail :
    (now : ℕ) (e : Engine) (t : Task)
    → TaskOf e t
    → IsExpired now t
    → resend t ≡ none
    → check_deadline now e ≡ fail_task timeout e
unfolding check_deadline
check_deadline_fail now e t task expired over =
    rw (check_deadline, task, check_deadline, expired, over) refl

-- The deadline passes `n` times while nothing arrives.
unfoldable pub expire : ℕ → ℕ → Engine → Engine
unfolding check_deadline
expire zero now e = e
expire (suc n) now e = expire n (now + step_timeout) (check_deadline now e).0

abbrev pub GaveUp : Engine → Type 0
GaveUp e = (e.task ≡ none) × (e.last_error ≡ some timeout)

pub check_deadline_idle : (now : ℕ) (e : Engine) → e.task ≡ none → check_deadline now e ≡ (e, none)
unfolding check_deadline
check_deadline_idle now e idle = ground arith

expire-GaveUp : (n now : ℕ) (e : Engine) → GaveUp e → GaveUp (expire n now e)
unfolding expire
expire-GaveUp zero now e h = h
expire-GaveUp (suc n) now e h =
    rw (expire, check_deadline_idle now e h.0) (expire-GaveUp n (now + step_timeout) e h)

fail_task-GaveUp : (e : Engine) → GaveUp ((fail_task timeout e).0)
unfolding fail_task
fail_task-GaveUp e = (refl, refl)

-- Whatever happens at the deadline of a task that has retries left or not.
expire_from :
    (n now : ℕ) (e : Engine) (t : Task)
    → TaskOf e t
    → IsExpired now t
    → t.retries ≤ max_step_retries
    → max_step_retries < t.retries + n
    → GaveUp (expire n now e)
unfolding expire
expire_from zero now e t task expired few enough = absurd (omega (arith, few, enough))
expire_from (suc n) now e t task expired few enough = elim (Option-cases (resend t)) [
  | inl over ↦
      let after = sym (check_deadline_fail now e t task expired over) in
      subst (λ o. GaveUp (expire n (now + step_timeout) o.0)) after
        (expire-GaveUp n (now + step_timeout) (fail_task timeout e).0 (fail_task-GaveUp e))
  | inr (last, again) ↦
      let after = sym (check_deadline-resend now e t last task expired again) in
      let left = resend-some t last again in
      subst (λ o. GaveUp (expire n (now + step_timeout) o.0)) after
        (expire_from n (now + step_timeout) (resent now e t last) _ refl (ground arith)
          (omega (arith, left)) (omega (arith, enough)))
]

-- A step that was resent at most three times is given up, with a timeout as the last error, once its
-- deadline passed four times in which nothing arrived.
pub expire-timeout :
    (now : ℕ) (e : Engine) (t : Task)
    → TaskOf e t
    → IsExpired now t
    → t.retries ≤ max_step_retries
    → GaveUp (expire 4 now e)
expire-timeout now e t task expired few =
    expire_from 4 now e t task expired few (omega (arith, few))
