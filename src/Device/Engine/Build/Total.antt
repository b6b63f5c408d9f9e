-- ===== src/Device/Engine/Build/Total.antt =====
-- src/device/engine.rs: the results of `request_init` and `request_sync`.
use sony_buds_tray_control.Protocol.Codec.Writer
use sony_buds_tray_control.Device.Engine.Build.Common.{
  command, command_t2, device_list_queries, push, sequence, when_support1, when_support2_any,
  when_table2,
}
use sony_buds_tray_control.Device.Engine.Build.Init.{build_init_steps}
use sony_buds_tray_control.Device.Engine.Build.Request.{begin, request_init, request_sync}
use sony_buds_tray_control.Device.Engine.Build.Sync.{battery_query, build_sync_steps, either}
use sony_buds_tray_control.Device.Engine.Defs.{Engine, EngineError, Step, done, is_ready, sync_ok}
use sony_buds_tray_control.Device.Engine.Invariant.{EngineOk, begin_task-EngineOk}
use sony_buds_tray_control.Device.State.{DeviceState, SupportFunctions, contains_t1}
use sony_buds_tray_control.Prelude.{
  All, All-append, Bool-cases, List, Option, Result, [], inl, inr, none, some, ℕ, ◌∷◌,
}
use sony_buds_tray_control.Protocol.Codec.Writer.{Writer}
use sony_buds_tray_control.Protocol.Enums.{
  FunctionTable1, PowerInquiredType, function_table1_enum, power_inquired_type_enum,
}
use sony_buds_tray_control.Protocol.Payloads.{serialize}

-- There is a result.
abbrev pub IsSome : {A : Type 0} → Option A → Type 0
IsSome none = ⊥
IsSome (some _) = Unit

pub push-IsSome : (s : Step) (ss : Option (List Step)) → IsSome ss → IsSome (push (some s) ss)
push-IsSome s none h = h
push-IsSome s (some ss) h = tt

pub sequence-IsSome : (ss : List (Option Step)) → All IsSome ss → IsSome (sequence ss)
unfolding sequence
sequence-IsSome [] h = tt
sequence-IsSome (some s ∷ ss) h = push-IsSome s (sequence ss) (sequence-IsSome ss h.1)
sequence-IsSome (none ∷ ss) h = absurd h.0

build_init_steps-IsSome : (st : DeviceState) → IsSome (build_init_steps st)
unfolding build_init_steps sequence command command_t2 when_table2 when_support1 when_support2_any
    device_list_queries serialize Writer.u8
build_init_steps-IsSome st = tt

battery_query-IsSome : (type : PowerInquiredType) → All IsSome (battery_query type)
unfolding command serialize Writer.u8
battery_query-IsSome type = (tt, tt)

device_list_queries-IsSome : All IsSome device_list_queries
unfolding device_list_queries when_support2_any sequence command_t2 serialize Writer.u8
device_list_queries-IsSome = (tt, (tt, tt))

either-IsSome :
    (s : SupportFunctions) (f : FunctionTable1) (type : PowerInquiredType) (g : FunctionTable1)
    (type' : PowerInquiredType)
    → All IsSome (either s f type g type')
either-IsSome s f type g type' = elim (Bool-cases (contains_t1 s f)) [
  | inl yes' ↦ rw yes' (battery_query-IsSome type)
  | inr no' ↦ elim (Bool-cases (contains_t1 s g)) [
    | inl yes' ↦ rw (no', yes') (battery_query-IsSome type')
    | inr no'' ↦ rw (no', no'') tt
  ]
]

build_sync_steps-IsSome : (st : DeviceState) → IsSome (build_sync_steps st)
unfolding build_sync_steps
build_sync_steps-IsSome st =
    let s = st.support in
    sequence-IsSome _ (
      All-append IsSome (either s _ _ _ _) _ (either-IsSome s _ _ _ _) (
        All-append IsSome (either s _ _ _ _) _ (either-IsSome s _ _ _ _) (
          All-append IsSome (either s _ _ _ _) _ (either-IsSome s _ _ _ _) (
            All-append IsSome device_list_queries (some (done sync_ok) ∷ [])
              device_list_queries-IsSome (tt, tt)))))

-- What a request leaves.
abbrev pub Started : Option (Result EngineError (Unit {0}) × Engine) → Type 0
Started none = ⊥
Started (some (_, e)) = EngineOk e

begin-Started :
    (now : ℕ) (e : Engine) (steps : Option (List Step))
    → IsSome steps
    → EngineOk e
    → Started (begin now e steps)
begin-Started now e none h good = absurd h
begin-Started now e (some steps) h good = begin_task-EngineOk now steps e good.0

-- On an engine in order the request to initialise does not panic, whatever the device supports, and it
-- leaves an engine in order, whether a task was running or the one of the request was started.
pub request_init-Started : (now : ℕ) (e : Engine) → EngineOk e → Started (request_init now e)
unfolding request_init
request_init-Started now e good = elim (Bool-cases (is_ready e)) [
  | inl free ↦
      rw (request_init, free)
        (begin-Started now e (build_init_steps e.state) (build_init_steps-IsSome e.state) good)
  | inr busy ↦ rw (request_init, busy) good
]

-- On an engine in order the request to synchronise does not panic, whatever the device supports, and
-- it leaves an engine in order, whether a task was running or the one of the request was started.
pub request_sync-Started : (now : ℕ) (e : Engine) → EngineOk e → Started (request_sync now e)
unfolding request_sync
request_sync-Started now e good = elim (Bool-cases (is_ready e)) [
  | inl free ↦
      rw (request_sync, free)
        (begin-Started now e (build_sync_steps e.state) (build_sync_steps-IsSome e.state) good)
  | inr busy ↦ rw (request_sync, busy) good
]
