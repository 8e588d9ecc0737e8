-- ===== src/Plan/Load/Again.antt =====
-- src/core/executor/execution_plan.cc: after a first load, `lightLoadExecutionPlan` does for other sizes
-- what `loadExecutionPlan` would do.
use text.Mathlib.Text.{◌==◌ as str_eq}
use mscclpp.Base.{
  ℕ, ◌≡◌, refl, sym, ap, ◌∙◌, inl, inr, Bool-cases, List, [], ◌++◌, Result, ok, err, ok-inj,
  throw_if, executor_error, not, ◌>>=◌, ◌>>◌, >>=-eq-ok,
}
use mscclpp.Plan.Sizes.{Plan, check_message_size}
use mscclpp.Plan.Operations.{Operation}
use mscclpp.Plan.Document.{GpuPlan, Document}
use mscclpp.Plan.Load.{
  Impl, setup_block_channels, setup_remote_buffers, setup_semaphores, blocks_operations, context,
  setup_operations, set_protocol, set_header, set_chunks, set_sizes, own_gpu, set_up,
  load_execution_plan, light_load_execution_plan, operations_reset, reset,
}
use mscclpp.Plan.Load.Steps.{
  map_ok, with_plan, Commutes, Commutes-then, setup_block_channels-Commutes,
  setup_remote_buffers-Commutes,
}

abbrev set_up_of : ℕ → Document → GpuPlan → Impl → Result Impl
set_up_of rank d gpu s = setup_block_channels d.gpus gpu s >>= λ s1.
    setup_remote_buffers rank d.gpus gpu s1 >>= λ s2. ok (setup_semaphores gpu s2)

set_up_of-Commutes :
    (p : Plan) (operations : List (List Operation)) (rank : ℕ) (d : Document) (gpu : GpuPlan)
    → Commutes p operations (set_up_of rank d gpu)
set_up_of-Commutes p operations rank d gpu =
    Commutes-then p operations (setup_block_channels d.gpus gpu)
      (λ s1. setup_remote_buffers rank d.gpus gpu s1 >>= λ s2. ok (setup_semaphores gpu s2))
      (setup_block_channels-Commutes p operations d.gpus gpu)
      (Commutes-then p operations (setup_remote_buffers rank d.gpus gpu)
        (λ s2. ok (setup_semaphores gpu s2))
        (setup_remote_buffers-Commutes p operations rank d.gpus gpu) (λ s2. refl))

-- A step that commutes keeps the plan and the operations.
Commutes-keeps :
    (step : Impl → Result Impl)
    → ((p : Plan) (o : List (List Operation)) → Commutes p o step)
    → (s t : Impl) → step s ≡ ok t
    → (t.plan ≡ s.plan) × (t.operations ≡ s.operations)
Commutes-keeps step c s t h =
    let same = rw h at (c s.plan s.operations s) in
    let e : t ≡ with_plan s.plan s.operations t = ok-inj same in
    (ap Impl.plan e, ap Impl.operations e)

set_up-set_up_of :
    (d : Document) (gpu : GpuPlan) (s : Impl) → set_up d gpu s ≡ set_up_of s.plan.rank d gpu s
set_up-set_up_of d gpu s = go (setup_block_channels d.gpus gpu s) refl
  where
    go :
        (r : Result Impl)
        → setup_block_channels d.gpus gpu s ≡ r
        → (r >>= λ s1.
            setup_remote_buffers s1.plan.rank d.gpus gpu s1 >>= λ s2. ok (setup_semaphores gpu s2))
          ≡ (r >>= λ s1.
              setup_remote_buffers s.plan.rank d.gpus gpu s1 >>= λ s2. ok (setup_semaphores gpu s2))
    go (err why) h = refl
    go (ok s1) h =
        let (e, _) =
          Commutes-keeps (setup_block_channels d.gpus gpu)
            (λ p o. setup_block_channels-Commutes p o d.gpus gpu) s s1 h in
        ap (λ p. setup_remote_buffers p.rank d.gpus gpu s1 >>= λ s2. ok (setup_semaphores gpu s2)) e

-- The plan that a load makes, from the plan before
abbrev loaded : Document → GpuPlan → ℕ → ℕ → Plan → Plan
loaded d gpu input_size output_size p = set_chunks gpu (set_header d input_size output_size p)

loaded_again :
    (d : Document) (gpu : GpuPlan) (i o i' o' : ℕ) (p : Plan)
    → set_sizes i' o' (set_chunks gpu (set_protocol d (loaded d gpu i o p))) ≡ loaded d gpu i' o' p
loaded_again d gpu i o i' o' p = elim (Bool-cases (str_eq d.protocol "LL")) [
  | inl t ↦ rw t refl
  | inr f ↦ rw f refl
]

loaded_twice :
    (d : Document) (gpu : GpuPlan) (i o i' o' : ℕ) (p : Plan)
    → loaded d gpu i' o' (loaded d gpu i o p) ≡ loaded d gpu i' o' p
loaded_twice d gpu i o i' o' p = elim (Bool-cases (str_eq d.protocol "LL")) [
  | inl t ↦ rw t refl
  | inr f ↦ rw f refl
]

-- What both loads come to when the set-up of the rank has ended in `t`
abbrev finish_load : GpuPlan → ℕ → ℕ → Plan → Impl → Result Impl
finish_load gpu const_src_offset const_dst_offset p t =
    check_message_size p
    >> setup_operations gpu const_src_offset const_dst_offset (with_plan p [] t)

module _ (d : Document) (gpu : GpuPlan) (i o : ℕ) (s t : Impl) where
  abbrev IsSetUp : Type 0
  IsSetUp =
      (throw_if (not (str_eq s.plan.name d.name)) executor_error ≡ ok tt)
      × (own_gpu d (set_header d i o s.plan) ≡ ok gpu)
      × (set_up d gpu record (reset s) { plan = loaded d gpu i o s.plan } ≡ ok t)

  set_up_again :
      (i' o' : ℕ)
      → IsSetUp
      → set_up d gpu record (reset s) { plan = loaded d gpu i' o' s.plan }
        ≡ ok (with_plan (loaded d gpu i' o' s.plan) [] t)
  set_up_again i' o' (named, own, done) =
      let first : Impl = record (reset s) { plan = loaded d gpu i o s.plan } in
      let again : Impl = record (reset s) { plan = loaded d gpu i' o' s.plan } in
      set_up-set_up_of d gpu again
      ∙ set_up_of-Commutes (loaded d gpu i' o' s.plan) [] s.plan.rank d gpu first
      ∙ ap (map_ok (with_plan (loaded d gpu i' o' s.plan) []))
          (sym (set_up-set_up_of d gpu first) ∙ done)

  load_again :
      (i' o' c e : ℕ)
      → IsSetUp
      → load_execution_plan d i' o' c e (reset s)
        ≡ finish_load gpu c e (loaded d gpu i' o' s.plan) t
  unfolding load_execution_plan
  load_again i' o' c e v = let (named, own, done) = v in rw (named, own, set_up_again i' o' v) refl

  light_load_of :
      (i' o' c e : ℕ) (s1 : Impl)
      → IsSetUp
      → s1.plan ≡ loaded d gpu i o s.plan
      → ((p : Plan) → with_plan p [] s1 ≡ with_plan p [] t)
      → light_load_execution_plan d i' o' c e (operations_reset s1)
        ≡ finish_load gpu c e (loaded d gpu i' o' s.plan) t
  unfolding light_load_execution_plan
  light_load_of i' o' c e s1 (named, own, done) plan same =
      rw (plan, named, own, loaded_again d gpu i o i' o' s.plan)
        (ap (λ u. check_message_size (loaded d gpu i' o' s.plan) >> setup_operations gpu c e u)
          (same (loaded d gpu i' o' s.plan)))

-- A loaded plan that is reset again is set up to the same.
IsSetUp-again :
    (d : Document) (gpu : GpuPlan) (i o : ℕ) (s s1 t : Impl)
    → s1.plan ≡ loaded d gpu i o s.plan
    → IsSetUp d gpu i o s t
    → IsSetUp d gpu i o s1 t
IsSetUp-again d gpu i o s s1 t plan (named, own, done) = (
  rw plan named,
  rw plan own,
  ap (λ p. set_up d gpu record (reset s) { plan = p })
        (ap (loaded d gpu i o) plan ∙ loaded_twice d gpu i o i o s.plan)
      ∙ done,
)

-- After a load of a plan that was reset, resetting its operations and loading it lightly, for any sizes
-- and offsets, gives the state, or the error, that resetting the loaded plan and loading it again gives.
pub light_load_again :
    (d : Document) (s s1 : Impl) (i o c e i' o' c' e' : ℕ)
    → load_execution_plan d i o c e (reset s) ≡ ok s1
    → light_load_execution_plan d i' o' c' e' (operations_reset s1)
      ≡ load_execution_plan d i' o' c' e' (reset s1)
unfolding load_execution_plan
light_load_again d s s1 i o c e i' o' c' e' h =
    let (_, named, h1) =
      >>=-eq-ok (throw_if (not (str_eq s.plan.name d.name)) executor_error) _ h in
    let (gpu, own, h2) = >>=-eq-ok (own_gpu d (set_header d i o s.plan)) _ h1 in
    let (_, checked, h3) = >>=-eq-ok (check_message_size (loaded d gpu i o s.plan)) _ h2 in
    let first : Impl = record (reset s) { plan = loaded d gpu i o s.plan } in
    let (t, done, h4) = >>=-eq-ok (set_up d gpu first) _ h3 in
    let (blocks, _, h5) = >>=-eq-ok (blocks_operations (context t c e) gpu.threadblocks) _ h4 in
    let (plan, _) =
      Commutes-keeps (set_up_of s.plan.rank d gpu) (λ p o. set_up_of-Commutes p o s.plan.rank d gpu)
        first t (sym (set_up-set_up_of d gpu first) ∙ done) in
    let e1 : record t { operations = t.operations ++ blocks } ≡ s1 = ok-inj h5 in
    let plan1 = ap Impl.plan (sym e1) ∙ plan in
    light_load_of d gpu i o s t i' o' c' e' s1 (named, own, done) plan1
      (λ p. ap (with_plan p []) (sym e1))
    ∙ sym (
        load_again d gpu i o s1 t i' o' c' e'
          (IsSetUp-again d gpu i o s s1 t plan1 (named, own, done))
        ∙ ap (λ p. finish_load gpu c' e' p t)
            (ap (loaded d gpu i' o') plan1 ∙ loaded_twice d gpu i o i' o' s.plan))
