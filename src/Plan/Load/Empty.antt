-- ===== src/Plan/Load/Empty.antt =====
-- src/core/executor/execution_plan.cc: a plan without chunks of the input or of the output is not loaded.
use text.Mathlib.Text.{◌==◌ as str_eq}
use mscclpp.Base.{
  ℕ, ◌≡◌, ◌≢◌, refl, sym, subst, ◌⊎◌, inl, inr, not, some, ok, ok-inj, throw_if, executor_error,
  ◌==◌, get_elem?, >>=-eq-ok, arith,
}
use mscclpp.Plan.Sizes.{Plan, check_message_size}
use mscclpp.Plan.Sizes.Chunks.{check_message_size-IsLoadable}
use mscclpp.Plan.Document.{GpuPlan, Document}
use mscclpp.Plan.Load.{
  Impl, set_protocol, set_header, set_chunks, set_sizes, own_gpu, load_execution_plan,
  light_load_execution_plan,
}

abbrev HasNoChunks : GpuPlan → Type 0
HasNoChunks gpu = (gpu.input_chunks ≡ 0) ⊎ (gpu.output_chunks ≡ 0)

own_gpu-inv :
    (d : Document) (p : Plan) (gpu own : GpuPlan)
    → get_elem? d.gpus p.rank ≡ some gpu
    → own_gpu d p ≡ ok own
    → own ≡ gpu
own_gpu-inv d p gpu own e h =
    let h' = rw e at h in
    let (_, _, same) = >>=-eq-ok (throw_if (not (gpu.id == p.rank)) executor_error) _ h' in
    sym (ok-inj same)

unchecked :
    (p : Plan) (gpu : GpuPlan)
    → HasNoChunks gpu
    → p.input_chunks ≡ gpu.input_chunks
    → p.output_chunks ≡ gpu.output_chunks
    → check_message_size p ≢ ok tt
unchecked p gpu (inl z) ei eo h =
    let v = check_message_size-IsLoadable p h in let s = v.input_some in omega arith
unchecked p gpu (inr z) ei eo h =
    let v = check_message_size-IsLoadable p h in let s = v.output_some in omega arith

-- When the GPU of the rank has no chunks of the input, or none of the output, neither load of the plan
-- succeeds, for any sizes.
pub load_without_chunks :
    (d : Document) (s t : Impl) (gpu : GpuPlan) (i o c e : ℕ)
    → get_elem? d.gpus s.plan.rank ≡ some gpu
    → HasNoChunks gpu
    → (load_execution_plan d i o c e s ≢ ok t) × (light_load_execution_plan d i o c e s ≢ ok t)
unfolding load_execution_plan light_load_execution_plan
load_without_chunks d s t gpu i o c e found empty = (
  λ h.
      let (_, named, h1) =
        >>=-eq-ok (throw_if (not (str_eq s.plan.name d.name)) executor_error) _ h in
      let (own, eown, h2) = >>=-eq-ok (own_gpu d (set_header d i o s.plan)) _ h1 in
      let same = own_gpu-inv d (set_header d i o s.plan) gpu own found eown in
      let p = set_chunks own (set_header d i o s.plan) in
      let (_, checked, h3) = >>=-eq-ok (check_message_size p) _ h2 in
      unchecked p own (subst HasNoChunks (sym same) empty) refl refl checked,
  λ h.
      let (_, named, h1) =
        >>=-eq-ok (throw_if (not (str_eq s.plan.name d.name)) executor_error) _ h in
      let (own, eown, h2) = >>=-eq-ok (own_gpu d (set_protocol d s.plan)) _ h1 in
      let same = own_gpu-inv d (set_protocol d s.plan) gpu own found eown in
      let p = set_sizes i o (set_chunks own (set_protocol d s.plan)) in
      let (_, checked, h3) = >>=-eq-ok (check_message_size p) _ h2 in
      unchecked p own (subst HasNoChunks (sym same) empty) refl refl checked,
)
