-- ===== src/Selector/Tests.antt =====
-- A build for NVIDIA and a device of compute capability 9.0 without NVLS.
use mscclpp.Base.{◌^◌, ◌≡◌, refl, true, false, not, ◌&&◌}
use mscclpp.Selector.{
  DataType, Build, Config, BufferMode, CollectiveRequest, is_nvls_supported_for_data_type,
  select_single_node_allreduce, select_single_node_allreduce_blackwell,
  select_single_node_allgather,
}
use mscclpp.Selector.Choice.{
  by_name, reduces_by_nvls, CanReduceFp8, is_none, nvls_reduction_is_supported, left_to_nccl_iff,
}

abbrev build : Build
build = record { hip_platform_amd = false; cuda_arch_specific = false }

abbrev config : Config
config = record {
  symmetric_memory = true;
  nvls_supported = false;
  is_cu_mem_map_allocated = true;
  in_capture_mode = false;
  compute_capability = (9, 0);
  nccl_dlopen_shared_lib = true;
}

-- 2 MB of `float16` on 8 ranks of one node
abbrev request : CollectiveRequest
request = record {
  world_size = 8;
  n_ranks_per_node = 8;
  buffer_mode = BufferMode.in_place;
  message_size = 2 ^ 21;
  collective = "allreduce";
  dtype = DataType.float16;
}

-- Compute capability 10.0, a build for it, and 2 MB of an FP8 type
abbrev newer : Build
newer = record { hip_platform_amd = false; cuda_arch_specific = true }

abbrev newer_config : Config
newer_config = record config { nvls_supported = true; compute_capability = (10, 0) }

abbrev fp8_request : CollectiveRequest
fp8_request = record request { dtype = DataType.float8_e4m3fn }

reduced :
    reduces_by_nvls (select_single_node_allreduce by_name newer fp8_request newer_config) ≡ true
unfolding select_single_node_allreduce select_single_node_allreduce_blackwell
    is_nvls_supported_for_data_type
reduced = refl

nvls_reduction_is_supported_example : CanReduceFp8 newer newer_config
nvls_reduction_is_supported_example =
    nvls_reduction_is_supported newer fp8_request newer_config reduced

left_to_nccl_iff_example :
    (is_none (select_single_node_allreduce by_name build request config) ≡ (
      true && not (is_nvls_supported_for_data_type build config DataType.float16) && true && true))
    × (is_none (select_single_node_allgather by_name build request config) ≡ false)
left_to_nccl_iff_example = left_to_nccl_iff build request config
