-- ===== src/Selector/Choice.antt =====
-- src/ext/nccl/algorithm_selector.cc: when there is a choice, and when it needs NVLS.
use Prim.Native.String.{String}
use text.Mathlib.Text.{◌==◌ as str_eq}
use mscclpp.Base.{
  ◌^◌, ◌≤◌, ◌≡◌, ◌⊎◌, inl, inr, Bool-cases, Bool, true, false, not, ◌&&◌, ◌||◌, Option, none, some,
  Result, ok, ltb, ◌==◌, if◌then◌else◌, arith,
}
use mscclpp.Selector.{
  DataType, Build, Config, CollectiveRequest, is_nvls_supported_for_data_type,
  select_single_node_allreduce_blackwell, select_other, select_single_node_allreduce,
  select_single_node_allgather,
}

-- The map that has every name, and gives the name itself.
abbrev pub by_name : String → Option String
by_name name = some name

-- Whether a choice is an algorithm that reduces through NVLS.
abbrev pub reduces_by_nvls : Result (Option String) → Bool
reduces_by_nvls (ok (some name)) =
    str_eq name "default_allreduce_nvls_zero_copy"
    || str_eq name "default_allreduce_nvls_warp_pipeline"
    || str_eq name "default_allreduce_nvls_block_pipeline"
reduces_by_nvls _ = false

-- A property of both branches.
either {ℓ} : {A : Type ℓ} (P : A → Type 0) (b : Bool) (x y : A) → P x → P y → P (if b then x else y)
either P true x y p q = p
either P false x y p q = q

abbrev Unreduced : Result (Option String) → Type 0
Unreduced m = reduces_by_nvls m ≡ false

blackwell-Unreduced :
    (b : Build) (r : CollectiveRequest) (c : Config)
    → is_nvls_supported_for_data_type b c r.dtype ≡ false
    → Unreduced (select_single_node_allreduce_blackwell by_name b r c)
unfolding select_single_node_allreduce_blackwell
blackwell-Unreduced b r c h = rw h (ground arith)

other-Unreduced :
    (b : Build) (r : CollectiveRequest) (c : Config)
    → is_nvls_supported_for_data_type b c r.dtype ≡ false
    → Unreduced (select_other by_name b r c)
unfolding select_other
other-Unreduced b r c h = rw h (ground arith)

-- NVLS of the FP8 types: on AMD as the device says; elsewhere the device has compute capability 10 or
-- more, and the build is for its architecture.
abbrev pub CanReduceFp8 : Build → Config → Type 0
CanReduceFp8 b c =
    (b.hip_platform_amd ≡ true) × (c.nvls_supported ≡ true)
    ⊎ (b.hip_platform_amd ≡ false) × (10 ≤ c.compute_capability.0) × (b.cuda_arch_specific ≡ true)

-- The data types that NVLS can reduce: no bytes, and no FP8 type in software.
abbrev pub CanReduce : Build → Config → DataType → Type 0
CanReduce b c DataType.uint8 = ⊥
CanReduce b c DataType.float8_e4m3b15 = ⊥
CanReduce b c DataType.float8_e4m3fn = CanReduceFp8 b c
CanReduce b c DataType.float8_e4m3fnuz = CanReduceFp8 b c
CanReduce b c DataType.float8_e5m2 = CanReduceFp8 b c
CanReduce b c DataType.float8_e5m2fnuz = CanReduceFp8 b c
CanReduce b c DataType.int32 = c.nvls_supported ≡ true
CanReduce b c DataType.uint32 = c.nvls_supported ≡ true
CanReduce b c DataType.float16 = c.nvls_supported ≡ true
CanReduce b c DataType.float32 = c.nvls_supported ≡ true
CanReduce b c DataType.bfloat16 = c.nvls_supported ≡ true
CanReduce b c DataType.auto = c.nvls_supported ≡ true

is_nvls_supported-CanReduce :
    (b : Build) (c : Config) (t : DataType)
    → is_nvls_supported_for_data_type b c t ≡ true
    → CanReduce b c t
unfolding is_nvls_supported_for_data_type
is_nvls_supported-CanReduce b c DataType.uint8 h = absurd cc
is_nvls_supported-CanReduce b c DataType.float8_e4m3b15 h = absurd cc
is_nvls_supported-CanReduce b c DataType.float8_e4m3fn h = ground arith
is_nvls_supported-CanReduce b c DataType.float8_e4m3fnuz h = ground arith
is_nvls_supported-CanReduce b c DataType.float8_e5m2 h = ground arith
is_nvls_supported-CanReduce b c DataType.float8_e5m2fnuz h = ground arith
is_nvls_supported-CanReduce b c DataType.int32 h = h
is_nvls_supported-CanReduce b c DataType.uint32 h = h
is_nvls_supported-CanReduce b c DataType.float16 h = h
is_nvls_supported-CanReduce b c DataType.float32 h = h
is_nvls_supported-CanReduce b c DataType.bfloat16 h = h
is_nvls_supported-CanReduce b c DataType.auto h = h

allreduce-Unreduced :
    (b : Build) (r : CollectiveRequest) (c : Config)
    → is_nvls_supported_for_data_type b c r.dtype ≡ false
    → Unreduced (select_single_node_allreduce by_name b r c)
unfolding select_single_node_allreduce
allreduce-Unreduced b r c h =
    either Unreduced (c.compute_capability.0 == 10)
      (select_single_node_allreduce_blackwell by_name b r c) (select_other by_name b r c)
      (blackwell-Unreduced b r c h) (other-Unreduced b r c h)

-- With every algorithm registered, allreduce on one node is given an algorithm that reduces through
-- NVLS only where NVLS can reduce the data type, whatever the size of the message and the kind of
-- memory: never bytes or the FP8 type in software; another FP8 type, where the build is not for AMD,
-- only from compute capability 10 on in a build for its architecture; and else only where the device
-- supports NVLS.
pub nvls_reduction_is_supported :
    (b : Build) (r : CollectiveRequest) (c : Config)
    → reduces_by_nvls (select_single_node_allreduce by_name b r c) ≡ true
    → CanReduce b c r.dtype
nvls_reduction_is_supported b r c h =
    elim (Bool-cases (is_nvls_supported_for_data_type b c r.dtype)) [
      | inl t ↦ is_nvls_supported-CanReduce b c r.dtype t
      | inr f ↦ let e = allreduce-Unreduced b r c f in absurd cc
    ]

abbrev pub is_none : Result (Option String) → Bool
is_none (ok none) = true
is_none _ = false

-- With every algorithm registered, the selection for one node leaves a collective to the NCCL library
-- exactly when one is loaded, the build is not for AMD, and: for allreduce, the device has another
-- compute capability than 10, the message is over 1 MB, and NVLS does not support its data type; for
-- allgather, the message is over 32 MB.
pub left_to_nccl_iff :
    (b : Build) (r : CollectiveRequest) (c : Config)
    → (is_none (select_single_node_allreduce by_name b r c) ≡ (
        not (c.compute_capability.0 == 10)
        && ltb (2 ^ 20) r.message_size
        && not (is_nvls_supported_for_data_type b c r.dtype)
        && not b.hip_platform_amd
        && c.nccl_dlopen_shared_lib))
      × (is_none (select_single_node_allgather by_name b r c)
          ≡ (ltb (2 ^ 25) r.message_size && not b.hip_platform_amd && c.nccl_dlopen_shared_lib))
unfolding select_single_node_allreduce select_other select_single_node_allreduce_blackwell
    select_single_node_allgather
left_to_nccl_iff b r c = (ground arith, ground arith)
