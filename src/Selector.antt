-- ===== src/Selector.antt =====
-- src/ext/nccl/algorithm_selector.cc: which algorithm serves a collective on one node. The macros
-- `__HIP_PLATFORM_AMD__` and `__CUDA_ARCH_SPECIFIC__` (or its family) of the build are the fields of
-- `Build`. A map of algorithms is a function of their names.
pub mod Choice
mod Tests
use Prim.Native.String.{String}
use text.Mathlib.Text.{◌==◌ as str_eq}
use mscclpp.Base.{
  ℕ, ◌*◌, ◌^◌, ◌≤◌, Bool, true, false, not, ◌&&◌, ◌||◌, Option, none, some, Result, ok, err,
  out_of_range, ltb, leb, ◌==◌, if◌then◌else◌, u64, ◌>>=◌,
}

-- `enum class DataType`
pub data DataType : Type 0 where
  int32 uint32 float16 float32 bfloat16 float8_e4m3fn float8_e4m3fnuz float8_e5m2 : DataType
  float8_e5m2fnuz uint8 float8_e4m3b15 auto : DataType

pub record Build : Type 0 where
  pub hip_platform_amd : Bool
  pub cuda_arch_specific : Bool

-- `AlgorithmSelectorConfig`
pub record Config : Type 0 where
  pub symmetric_memory : Bool
  pub nvls_supported : Bool
  pub is_cu_mem_map_allocated : Bool
  pub in_capture_mode : Bool
  pub compute_capability : ℕ × ℕ
  pub nccl_dlopen_shared_lib : Bool

pub data BufferMode : Type 0 where
  any in_place out_of_place : BufferMode

pub record CollectiveRequest : Type 0 where
  pub world_size : ℕ
  pub n_ranks_per_node : ℕ
  pub buffer_mode : BufferMode
  pub message_size : ℕ  -- size_t
  pub collective : String
  pub dtype : DataType

-- What a `DslAlgorithm` says of itself.
pub record DslAlgorithm : Type 0 where
  pub constraint_world_size : ℕ
  pub constraint_n_ranks_per_node : ℕ
  pub algo_collective : String
  pub algo_buffer_mode : BufferMode
  pub message_range : ℕ × ℕ

abbrev pub is_fp8 : DataType → Bool
is_fp8 DataType.float8_e4m3fn = true
is_fp8 DataType.float8_e4m3fnuz = true
is_fp8 DataType.float8_e5m2 = true
is_fp8 DataType.float8_e5m2fnuz = true
is_fp8 _ = false

abbrev pub never_nvls : DataType → Bool
never_nvls DataType.uint8 = true
never_nvls DataType.float8_e4m3b15 = true
never_nvls _ = false

-- `isNvlsSupportedForDataType`
pub is_nvls_supported_for_data_type : Build → Config → DataType → Bool
is_nvls_supported_for_data_type b c dtype =
    if never_nvls dtype
    then false
    else if not (is_fp8 dtype)
    then c.nvls_supported
    else if b.hip_platform_amd
    then c.nvls_supported
    else if ltb c.compute_capability.0 10
    then false
    else b.cuda_arch_specific

abbrev pub same_mode : BufferMode → BufferMode → Bool
same_mode BufferMode.any BufferMode.any = true
same_mode BufferMode.in_place BufferMode.in_place = true
same_mode BufferMode.out_of_place BufferMode.out_of_place = true
same_mode _ _ = false

-- `effectiveSize`
abbrev pub effective_size : CollectiveRequest → ℕ
effective_size r =
    if str_eq r.collective "allgather" then u64 (r.message_size * r.world_size) else r.message_size

-- `matchExecutionPlan`
pub match_execution_plan : DslAlgorithm → CollectiveRequest → Bool
match_execution_plan algo r =
    (algo.constraint_world_size == r.world_size)
    && (algo.constraint_n_ranks_per_node == r.n_ranks_per_node)
    && str_eq algo.algo_collective r.collective
    && (same_mode algo.algo_buffer_mode BufferMode.any
        || same_mode r.buffer_mode algo.algo_buffer_mode)
    && leb algo.message_range.0 (effective_size r)
    && leb (effective_size r) algo.message_range.1

module _ {A : Type 0} (algo_map : String → Option A) where
  -- `algoMap.at(name)`, which throws `std::out_of_range`
  abbrev pub at : String → Result (Option A)
  at name = elim (algo_map name) [ none ↦ err out_of_range | some a ↦ ok (some a) ]

  -- `selectSingleNodeAllreduceBlackwell`
  pub select_single_node_allreduce_blackwell :
      Build → CollectiveRequest → Config → Result (Option A)
  select_single_node_allreduce_blackwell b r c =
      let size = r.message_size in
      let use_nvls_with_zero_copy =
        is_nvls_supported_for_data_type b c r.dtype && c.is_cu_mem_map_allocated in
      if leb size (2 ^ 15)
      then at "default_allreduce_nvls_packet"
      else if not c.symmetric_memory
      then (if leb size (2 ^ 21)
          then at "default_allreduce_packet"
          else if c.in_capture_mode
          then at "default_allreduce_rsag_zero_copy"
          else if leb size (2 ^ 23)
          then at "default_allreduce_rsag"
          else at "default_allreduce_rsag_pipeline")
      else if leb size (2 ^ 16) || (leb size (2 ^ 20) && not use_nvls_with_zero_copy)
      then at "default_allreduce_packet"
      else if use_nvls_with_zero_copy
      then at "default_allreduce_nvls_zero_copy"
      else at "default_allreduce_rsag_zero_copy"

  -- `selectSingleNodeAllreduce` for the other compute capabilities
  pub select_other : Build → CollectiveRequest → Config → Result (Option A)
  select_other b r c =
      let size = r.message_size in
      let nvls = is_nvls_supported_for_data_type b c r.dtype in
      let use_nvls_with_zero_copy = nvls && c.symmetric_memory && c.is_cu_mem_map_allocated in
      if leb size (2 ^ 14)
      then at "default_allreduce_allpair_packet"
      else if leb size (2 ^ 15) && nvls
      then at "default_allreduce_nvls_packet"
      else if leb size (2 ^ 16) || (leb size (2 ^ 20) && not use_nvls_with_zero_copy)
      then at "default_allreduce_packet"
      else if nvls && use_nvls_with_zero_copy
      then at "default_allreduce_nvls_zero_copy"
      else if nvls
      then (if ltb size (2 ^ 24)
          then at "default_allreduce_nvls_warp_pipeline"
          else at "default_allreduce_nvls_block_pipeline")
      else if b.hip_platform_amd
      then at "default_allreduce_fullmesh"
      else if not c.nccl_dlopen_shared_lib
      then at "default_allreduce_fullmesh"
      else ok none

  -- `selectSingleNodeAllreduce`
  pub select_single_node_allreduce : Build → CollectiveRequest → Config → Result (Option A)
  select_single_node_allreduce b r c =
      if c.compute_capability.0 == 10
      then select_single_node_allreduce_blackwell b r c
      else select_other b r c

  -- `selectSingleNodeAllgather`
  pub select_single_node_allgather : Build → CollectiveRequest → Config → Result (Option A)
  select_single_node_allgather b r c =
      if leb r.message_size (32 * 2 ^ 20)
      then at "default_allgather_fullmesh2"
      else if b.hip_platform_amd
      then at "default_allgather_fullmesh2"
      else if not c.nccl_dlopen_shared_lib
      then at "default_allgather_fullmesh"
      else ok none
