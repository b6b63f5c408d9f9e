-- ===== src/Device/Engine/Runner.antt =====
-- src/device/engine.rs: sending, and the machine that runs the steps of a task. The clock is an
-- argument, read once for each call; a `u8` subtraction wraps, as it does in a release build.
use sony_buds_tray_control.Device.Engine.Defs.{
  Engine, EngineError, Outcome, Step, Steps, Task, Wait, ack, apply, await, cons, done, emit, error,
  if_support1, if_support2_any, if_table2, max_step_retries, nc_asm_query, nil, quiet, send,
  step_timeout, timeout, to_list, wait_eq,
}
use sony_buds_tray_control.Device.Properties.{Properties}
use sony_buds_tray_control.Device.State.{DeviceState, SupportFunctions, contains_t1, contains_t2}
use sony_buds_tray_control.Prelude.{
  Bool, List, Option, [], bool_eq, eq, false, if◌then◌else◌, int_eq, leb, list_eq, ltb, nat_eq,
  none, not, option_eq, some, suc, zero, ℕ, ◌%◌, ◌++◌, ◌+◌, ◌-◌, ◌||◌, ◌∷◌,
}
use sony_buds_tray_control.Protocol.Enums.{
  DataType, FunctionTable1, FunctionTable2, NcAsmInquiredType, data_type_enum, enum_eq,
  function_table1_enum, function_table2_enum, nc_asm_inquired_type_enum,
}
use sony_buds_tray_control.Protocol.Packet.{pack}
use sony_buds_tray_control.Protocol.Payloads.{NcAsmGetParam, nc_asm_get_param_payload, serialize}

-- `1 - n`, in a byte.
unfoldable pub flip : ℕ → ℕ
flip n = (1 + 256 - n) % 256

unfoldable pub send_command : List ℕ → DataType → Engine → Engine
unfolding flip
send_command payload type e = record e {
  tx_seq = flip e.tx_seq;
  send_buf = e.send_buf ++ pack type e.tx_seq payload;
}

-- The bytes that `serialize` gives; the empty list stands in for its panic.
abbrev pub bytes_of : Option (List ℕ) → List ℕ
bytes_of none = []
bytes_of (some bytes) = bytes

abbrev pub query : NcAsmInquiredType → List Step
query type =
    send (bytes_of (serialize (let p : NcAsmGetParam = record { type = type } in p)))
      DataType.data_mdr ack none
    ∷ []

unfoldable pub expand_nc_asm : SupportFunctions → List Step
unfolding contains_t1 serialize
expand_nc_asm s =
    if contains_t1 s
      FunctionTable1.mode_nc_asm_noise_cancelling_dual_ambient_sound_mode_level_adjustment
    then query NcAsmInquiredType.mode_nc_asm_dual_nc_mode_switch_and_asm_seamless
    else if contains_t1 s
        FunctionTable1.mode_nc_asm_noise_cancelling_dual_ambient_sound_mode_level_adjustment_noise_adaptation
    then query NcAsmInquiredType.mode_nc_asm_dual_nc_mode_switch_and_asm_seamless_na
    else if contains_t1 s FunctionTable1.ambient_sound_mode_level_adjustment
    then query NcAsmInquiredType.asm_seamless
    else []

unfoldable pub any_t2 : SupportFunctions → List FunctionTable2 → Bool
unfolding contains_t2
any_t2 s [] = false
any_t2 s (f ∷ fs) = contains_t2 s f || any_t2 s fs

-- What a conditional step is replaced by; `none` if the step is not conditional. A condition that
-- fails leaves nothing.
unfoldable pub expand : DeviceState → Step → Option (List Step)
unfolding to_list expand_nc_asm contains_t1 any_t2
expand st (if_table2 inner) = some (if st.has_table2 then to_list inner else [])
expand st (if_support1 f inner) = some (if contains_t1 st.support f then to_list inner else [])
expand st (if_support2_any fs inner) = some (if any_t2 st.support fs then to_list inner else [])
expand st nc_asm_query = some (expand_nc_asm st.support)
expand st (send _ _ _ _) = none
expand st (await _) = none
expand st (done _) = none

-- The rounds of the loop that meet a conditional step.
unfoldable pub settle : ℕ → DeviceState → List Step → List Step
unfolding expand
settle zero st steps = steps
settle (suc fuel) st [] = []
settle (suc fuel) st (s ∷ rest) = elim (expand st s) [
  | none ↦ s ∷ rest
  | some inner ↦ settle fuel st (inner ++ rest)
]

-- Fuel for `settle`: each step counts once, and a query once more for what replaces it.
abbrev mutual
  pub weight : Step → ℕ
  weight (send _ _ _ _) = 1
  weight (await _) = 1
  weight (if_table2 inner) = suc (weight_all inner)
  weight (if_support1 _ inner) = suc (weight_all inner)
  weight (if_support2_any _ inner) = suc (weight_all inner)
  weight nc_asm_query = 2
  weight (done _) = 1

  pub weight_all : Steps → ℕ
  weight_all nil = 0
  weight_all (cons s ss) = weight s + weight_all ss

abbrev pub total_weight : List Step → ℕ
total_weight [] = 0
total_weight (s ∷ ss) = weight s + total_weight ss

abbrev pub put_task : Engine → Task → Engine
put_task e t = record e { task = some t }

-- The round that ends the loop, by the step in front.
unfoldable pub start : ℕ → Engine → Task → Engine
unfolding send_command
start now e t = elim t.steps [
  | [] ↦ put_task e t
  | s ∷ rest ↦ elim s [
    | send payload type wait _ ↦ put_task (send_command payload type e) (record t {
      deadline = some (now + step_timeout);
      current_wait = some wait;
      last_send = some (payload, type);
      retries = 0;
    })
    | await wait ↦
        put_task e
          (record t { deadline = some (now + step_timeout); current_wait = some wait; retries = 0 })
    | _ ↦ put_task e t
  ]
]

unfoldable pub advance_task : ℕ → Engine → Engine
unfolding settle start
advance_task now e = elim e.task [
  | none ↦ e
  | some t ↦ start now e (record t { steps = settle (total_weight t.steps) e.state t.steps })
]

abbrev pub new_task : List Step → Task
new_task steps = record {
  steps = steps;
  deadline = none;
  current_wait = none;
  last_send = none;
  retries = 0;
}

-- The end of `request_init`, `request_sync` and `request_commit`.
unfoldable pub begin_task : ℕ → List Step → Engine → Engine
unfolding advance_task
begin_task now steps e = advance_task now (put_task e (new_task steps))

unfoldable pub step_completed : Engine → Outcome
step_completed e = elim e.task [
  | none ↦ quiet e
  | some t ↦ elim t.steps [
    | [] ↦ quiet e
    | s ∷ rest ↦ elim s [ done ev ↦ emit (record e { task = none }) ev | _ ↦ quiet e ]
  ]
]

-- The commit that the step in front carries.
abbrev pub front_commit : List Step → Properties → Properties
front_commit [] p = p
front_commit (send _ _ _ (some c) ∷ _) p = apply c p
front_commit (_ ∷ _) p = p

abbrev pub tail : List Step → List Step
tail [] = []
tail (_ ∷ rest) = rest

abbrev pub waits_for : Wait → Option Task → Bool
waits_for wait none = false
waits_for wait (some t) = eq t.current_wait (some wait)

unfoldable pub advance_on : ℕ → Wait → Engine → Outcome
unfolding apply advance_task step_completed
advance_on now wait e = elim e.task [
  | none ↦ quiet e
  | some t ↦
      if not (eq t.current_wait (some wait))
      then quiet e
      else step_completed (
          advance_task now (record e {
            props = front_commit t.steps e.props;
            task = some (record t { current_wait = none; deadline = none; steps = tail t.steps });
          }))
]

unfoldable pub fail_task : EngineError → Engine → Outcome
fail_task why e = emit (record e { task = none; last_error = some why }) (error why)

abbrev pub is_expired : ℕ → Option ℕ → Bool
is_expired now none = false
is_expired now (some d) = leb d now

-- The command to send again, while the step has retries left.
abbrev pub resend : Task → Option (List ℕ × DataType)
resend t = if ltb t.retries max_step_retries then t.last_send else none

unfoldable pub check_deadline : ℕ → Engine → Outcome
unfolding send_command fail_task
check_deadline now e = elim e.task [
  | none ↦ quiet e
  | some t ↦ if not (is_expired now t.deadline) then quiet e else elim (resend t) [
    | none ↦ fail_task timeout e
    | some (payload, type) ↦ quiet (
        put_task (send_command payload type e)
          (record t { retries = t.retries + 1; deadline = some (now + step_timeout) }))
  ]
]
