-- ===== src/Plan/Operations/Tests.antt =====
-- src/core/executor/execution_plan.cc: operations at concrete inputs.
use mscclpp.Base.{ℕ, ◌+◌, ◌*◌, ◌/◌, ◌<◌, ◌≡◌, refl, false, [], ◌∷◌, none, ok, arith}
use mscclpp.Plan.Types.{input, memory, convert_to_buffer_type}
use mscclpp.Plan.Sizes.{
  Plan, calc_offset, calc_size, get_offset, get_buffer_size, get_size_and_chunks,
  cal_max_scratch_chunk_size, check_message_size,
}
use mscclpp.Plan.Operations.{by_type, Context, setup_buffer}
use mscclpp.Plan.Operations.Slicing.{HasByte, local_buffer, IsShared, one_thread_block}

-- 96 bytes in two chunks of three units
abbrev plan : Plan
plan = record {
  name = "p";
  collective = "allreduce";
  is_using_packet = false;
  reuse_resources = false;
  rank = 0;
  input_chunks = 2;
  output_chunks = 2;
  scratch_chunks = 0;
  input_size = 96;
  output_size = 96;
  n_threads_per_block = 1024;
  min_message_size = 0;
  max_message_size = 1000;
  buffer_alignment = 16;
  is_in_place = false;
  double_scratch_buffer = false;
}

abbrev context : Context
context = record {
  plan = plan;
  memory_buffers = [] ∷ [];
  port_buffers = [] ∷ [];
  nvls_channels = [] ∷ [];
  nvls_infos = [];
  const_src_offset = 0;
  const_dst_offset = 0;
}

-- The second of two thread blocks has the last unit of chunk 1.
setup_buffer_test :
    setup_buffer context 0 memory 1 2 (local_buffer "i" 1 1)
    ≡ ok record { ref = by_type input; nvls = none; offset = 80; slice_size = 16 }
unfolding setup_buffer get_offset get_buffer_size get_size_and_chunks calc_offset calc_size
    cal_max_scratch_chunk_size convert_to_buffer_type
setup_buffer_test = refl

shared : IsShared plan 96 2 1 1 2
unfolding check_message_size get_size_and_chunks
shared = record {
  checked = refl;
  picked = refl;
  some_bytes = omega arith;
  small = omega arith;
  inside = omega arith;
  sliceable = record {
    some_slice = omega arith;
    enough = omega arith;
    whole = omega arith;
    small = omega arith;
    unit = omega arith;
  };
}

is_input : convert_to_buffer_type "i" ≡ ok input
unfolding convert_to_buffer_type
is_input = refl

-- Byte 40 of chunk 1
one_thread_block_example :
    (i : ℕ) × (i < 2)
    × HasByte (setup_buffer context 0 memory i 2 (local_buffer "i" 1 1)) (1 * (96 / 2) + 40)
    × ((j : ℕ)
        → j < 2
        → HasByte (setup_buffer context 0 memory j 2 (local_buffer "i" 1 1)) (1 * (96 / 2) + 40)
        → j ≡ i)
one_thread_block_example =
    one_thread_block context 0 memory "i" input 96 2 1 1 2 40 is_input refl shared (omega arith)
