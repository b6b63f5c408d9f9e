-- ===== src/Device/Engine/Settle.antt =====
-- src/device/engine.rs: the loop of `advance_task` over conditional steps, and its fuel.
use sony_buds_tray_control.Device.Engine.Defs.{
  Step, Steps, await, cons, done, if_support1, if_support2_any, if_table2, nc_asm_query, nil, send,
  to_list,
}
use sony_buds_tray_control.Device.Engine.Runner.{
  expand, expand_nc_asm, settle, total_weight, weight, weight_all,
}
use sony_buds_tray_control.Device.State.{DeviceState, SupportFunctions}
use sony_buds_tray_control.Prelude.{
  List, Option-cases, [], arith, inl, inr, none, refl, some, subst, suc, sym, zero, ℕ, ◌++◌, ◌+◌,
  ◌<◌, ◌∷◌, ◌≡◌, ◌≤◌,
}

total_weight-append :
    (xs ys : List Step) → total_weight (xs ++ ys) ≡ total_weight xs + total_weight ys
total_weight-append [] ys = omega arith
total_weight-append (x ∷ xs) ys = omega (arith, total_weight-append xs ys)

total_weight-to_list : (ss : Steps) → total_weight (to_list ss) ≡ weight_all ss
unfolding to_list
total_weight-to_list nil = refl
total_weight-to_list (cons s ss) = omega (arith, total_weight-to_list ss)

-- What is left in front of the task: nothing, or a step without a condition.
abbrev pub IsSettled : DeviceState → List Step → Type 0
IsSettled st [] = Unit
IsSettled st (s ∷ _) = expand st s ≡ none

total_weight-expand_nc_asm : (s : SupportFunctions) → total_weight (expand_nc_asm s) ≤ 1
unfolding expand_nc_asm
total_weight-expand_nc_asm s = ground arith

total_weight-expand :
    (st : DeviceState) (s : Step) (inner : List Step)
    → expand st s ≡ some inner
    → total_weight inner < weight s
unfolding expand
total_weight-expand st (if_table2 steps) inner h = ground (arith, total_weight-to_list steps)
total_weight-expand st (if_support1 f steps) inner h = ground (arith, total_weight-to_list steps)
total_weight-expand st (if_support2_any fs steps) inner h =
    ground (arith, total_weight-to_list steps)
total_weight-expand st nc_asm_query inner h = ground (arith, total_weight-expand_nc_asm st.support)
total_weight-expand st (send p d w c) inner h = ground arith
total_weight-expand st (await w) inner h = ground arith
total_weight-expand st (done ev) inner h = ground arith

weight-positive : (s : Step) → 1 ≤ weight s
weight-positive (send p d w c) = omega arith
weight-positive (await w) = omega arith
weight-positive (if_table2 steps) = omega arith
weight-positive (if_support1 f steps) = omega arith
weight-positive (if_support2_any fs steps) = omega arith
weight-positive nc_asm_query = omega arith
weight-positive (done ev) = omega arith

pub settle-none :
    (fuel : ℕ) (st : DeviceState) (s : Step) (rest : List Step)
    → expand st s ≡ none
    → settle (suc fuel) st (s ∷ rest) ≡ s ∷ rest
unfolding settle
settle-none fuel st s rest h = rw (settle, h) refl

pub settle-some :
    (fuel : ℕ) (st : DeviceState) (s : Step) (rest inner : List Step)
    → expand st s ≡ some inner
    → settle (suc fuel) st (s ∷ rest) ≡ settle fuel st (inner ++ rest)
unfolding settle
settle-some fuel st s rest inner h = rw (settle, h) refl

-- The loop over conditional steps ends with fuel for the weight of the steps.
pub settle-IsSettled :
    (fuel : ℕ) (st : DeviceState) (steps : List Step)
    → total_weight steps ≤ fuel
    → IsSettled st (settle fuel st steps)
unfolding settle
settle-IsSettled zero st [] h = tt
settle-IsSettled zero st (s ∷ rest) h = absurd (omega (arith, weight-positive s))
settle-IsSettled (suc fuel) st [] h = tt
settle-IsSettled (suc fuel) st (s ∷ rest) h = elim (Option-cases (expand st s)) [
  | inl none' ↦ subst (IsSettled st) (sym (settle-none fuel st s rest none')) none'
  | inr (inner, found) ↦
      let enough : total_weight (inner ++ rest) ≤ fuel =
        omega (arith, total_weight-append inner rest, total_weight-expand st s inner found) in
      subst (IsSettled st) (sym (settle-some fuel st s rest inner found))
        (settle-IsSettled fuel st (inner ++ rest) enough)
]
