-- ===== src/Device/Engine/Resolve.antt =====
-- src/device/engine.rs: the loop of `advance_task` against what it is for. The steps of a task stand
-- for the list of unconditional steps that the conditions select.
use sony_buds_tray_control.Device.Engine.Defs.{
  Step, Steps, await, cons, done, if_support1, if_support2_any, if_table2, nc_asm_query, nil, send,
  to_list,
}
use sony_buds_tray_control.Device.Engine.Runner.{any_t2, expand, expand_nc_asm, settle}
use sony_buds_tray_control.Device.Engine.Settle.{settle-none, settle-some}
use sony_buds_tray_control.Device.State.{DeviceState, SupportFunctions, contains_t1}
use sony_buds_tray_control.Prelude.{
  List, Option-cases, [], ap, append_assoc, arith, if◌then◌else◌, inl, inr, refl, some, suc, sym,
  zero, ℕ, ◌++◌, ◌∙◌, ◌∷◌, ◌≡◌,
}

-- The specification: every condition decided at once.
abbrev mutual
  pub resolve : DeviceState → Step → List Step
  resolve st (if_table2 inner) = if st.has_table2 then resolve_all st inner else []
  resolve st (if_support1 f inner) = if contains_t1 st.support f then resolve_all st inner else []
  resolve st (if_support2_any fs inner) = if any_t2 st.support fs then resolve_all st inner else []
  resolve st nc_asm_query = expand_nc_asm st.support
  resolve st (send payload type wait c) = send payload type wait c ∷ []
  resolve st (await wait) = await wait ∷ []
  resolve st (done ev) = done ev ∷ []

  pub resolve_all : DeviceState → Steps → List Step
  resolve_all st nil = []
  resolve_all st (cons s ss) = resolve st s ++ resolve_all st ss

abbrev pub resolve_list : DeviceState → List Step → List Step
resolve_list st [] = []
resolve_list st (s ∷ ss) = resolve st s ++ resolve_list st ss

resolve_list-append :
    (st : DeviceState) (xs ys : List Step)
    → resolve_list st (xs ++ ys) ≡ resolve_list st xs ++ resolve_list st ys
resolve_list-append st [] ys = refl
resolve_list-append st (x ∷ xs) ys =
    rw (resolve_list-append st xs ys)
      (sym (append_assoc (resolve st x) (resolve_list st xs) (resolve_list st ys)))

resolve_list-to_list :
    (st : DeviceState) (ss : Steps) → resolve_list st (to_list ss) ≡ resolve_all st ss
unfolding to_list
resolve_list-to_list st nil = refl
resolve_list-to_list st (cons s ss) = ap (λ xs. resolve st s ++ xs) (resolve_list-to_list st ss)

resolve_list-expand_nc_asm :
    (st : DeviceState) (s : SupportFunctions) → resolve_list st (expand_nc_asm s) ≡ expand_nc_asm s
unfolding expand_nc_asm
resolve_list-expand_nc_asm st s = ground arith

resolve-expand :
    (st : DeviceState) (s : Step) (inner : List Step)
    → expand st s ≡ some inner
    → resolve_list st inner ≡ resolve st s
unfolding expand
resolve-expand st (if_table2 steps) inner h = ground (arith, resolve_list-to_list st steps)
resolve-expand st (if_support1 f steps) inner h = ground (arith, resolve_list-to_list st steps)
resolve-expand st (if_support2_any fs steps) inner h = ground (arith, resolve_list-to_list st steps)
resolve-expand st nc_asm_query inner h = ground (arith, resolve_list-expand_nc_asm st st.support)
resolve-expand st (send p d w c) inner h = absurd cc
resolve-expand st (await w) inner h = absurd cc
resolve-expand st (done ev) inner h = absurd cc

-- The loop over conditional steps, with whatever fuel, changes nothing of what the task stands for: the
-- unconditional steps that the conditions select, in their order, are the same before and after.
pub settle-resolve_list :
    (fuel : ℕ) (st : DeviceState) (steps : List Step)
    → resolve_list st (settle fuel st steps) ≡ resolve_list st steps
settle-resolve_list zero st steps = unfold settle in refl
settle-resolve_list (suc fuel) st [] = unfold settle in refl
settle-resolve_list (suc fuel) st (s ∷ rest) = elim (Option-cases (expand st s)) [
  | inl none' ↦ ap (resolve_list st) (settle-none fuel st s rest none')
  | inr (inner, found) ↦
      ap (resolve_list st) (settle-some fuel st s rest inner found)
      ∙ settle-resolve_list fuel st (inner ++ rest)
      ∙ resolve_list-append st inner rest
      ∙ ap (λ xs. xs ++ resolve_list st rest) (resolve-expand st s inner found)
]
