-- ===== src/Plan/Sizes/Tests.antt =====
-- Plans with concrete sizes.
use mscclpp.Base.{ℕ, ◌-◌, ◌*◌, ◌^◌, ◌<◌, ◌≡◌, refl, arith, true, false, ok}
use mscclpp.Plan.Sizes.{
  Plan, predefined_scratch_size, calc_offset, calc_size, cal_max_scratch_chunk_size,
}
use mscclpp.Plan.Sizes.Cuts.{IsSliceable}
use mscclpp.Plan.Sizes.Slices.{InSlice, one_slice, calc_size_wraps}

-- 96 bytes in two chunks of three units of 16 bytes, and three scratch chunks.
abbrev two_chunks : Plan
two_chunks = record {
  name = "ring";
  collective = "allreduce";
  is_using_packet = false;
  reuse_resources = false;
  rank = 0;
  input_chunks = 2;
  output_chunks = 2;
  scratch_chunks = 3;
  input_size = 96;
  output_size = 96;
  n_threads_per_block = 1024;
  min_message_size = 0;
  max_message_size = 2 ^ 64 - 1;
  buffer_alignment = 16;
  is_in_place = false;
  double_scratch_buffer = false;
}

-- Seven units over three thread blocks.
slices :
    (calc_offset two_chunks 112 0 3 ≡ ok 0)
    × (calc_offset two_chunks 112 1 3 ≡ ok 48)
    × (calc_offset two_chunks 112 2 3 ≡ ok 80)
    × (calc_size two_chunks 112 2 3 ≡ ok 32)
unfolding calc_offset calc_size
slices = (refl, refl, refl, refl)

-- Three units over four thread blocks.
wrapped : calc_size two_chunks 48 2 4 ≡ ok 4294967264
unfolding calc_offset calc_size
wrapped = refl

-- One unit over two thread blocks: no block gets it.
lost : (calc_size two_chunks 16 0 2 ≡ ok 0) × (calc_size two_chunks 16 1 2 ≡ ok 0)
unfolding calc_offset calc_size
lost = (refl, refl)

seven_units : IsSliceable two_chunks 112 3
seven_units = omega arith

one_slice_example :
    (i : ℕ) × (i < 3)
    × InSlice two_chunks 112 3 50 i
    × ((j : ℕ) → j < 3 → InSlice two_chunks 112 3 50 j → j ≡ i)
one_slice_example = one_slice two_chunks 112 3 50 seven_units (omega arith)

calc_size_wraps_example : calc_size two_chunks 48 2 4 ≡ ok (2 ^ 32 - 2 * 16)
calc_size_wraps_example =
    calc_size_wraps two_chunks 48 4 (omega arith) (omega arith) (omega arith) (omega arith)
      (omega arith)

-- Packets in the second half of a doubled buffer
abbrev doubled : Plan
doubled = record two_chunks { is_using_packet = true; double_scratch_buffer = true }

-- Three chunks of the 64 MB buffer end 32 bytes behind it.
max_chunk : cal_max_scratch_chunk_size two_chunks predefined_scratch_size ≡ ok 22369632
unfolding cal_max_scratch_chunk_size
max_chunk = refl
