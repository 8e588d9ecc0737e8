-- ===== src/Plan/Sizes.antt =====
-- src/core/executor/execution_plan.cc: the scalar fields of `ExecutionPlan::Impl`, and the functions
-- that turn chunk numbers into byte offsets and sizes. Words wrap where the source's types do.
pub mod Cuts
pub mod Slices
pub mod Chunks
pub mod Scratch
mod Tests
use Prim.Native.String.{String}
use text.Mathlib.Text.{◌==◌ as str_eq}
use mscclpp.Base.{
  ℕ, ◌+◌, ◌-◌, ◌*◌, ◌/◌, ◌%◌, ◌^◌, Bool, true, false, not, ◌&&◌, ◌||◌, Result, ok, err, thrown,
  executor_error, throw_if, div, mod_of, ◌>>=◌, ◌>>◌, ltb, leb, ◌==◌, if◌then◌else◌, u32, u64,
  sub_u32,
}
use mscclpp.Plan.Types.{BufferType}

pub record Plan : Type 0 where
  pub name : String
  pub collective : String
  pub is_using_packet : Bool
  pub reuse_resources : Bool
  pub rank : ℕ
  pub input_chunks : ℕ  -- uint32_t
  pub output_chunks : ℕ  -- uint32_t
  pub scratch_chunks : ℕ  -- uint32_t
  pub input_size : ℕ  -- size_t
  pub output_size : ℕ  -- size_t
  pub n_threads_per_block : ℕ
  pub min_message_size : ℕ  -- size_t
  pub max_message_size : ℕ  -- size_t
  pub buffer_alignment : ℕ  -- uint32_t
  pub is_in_place : Bool
  pub double_scratch_buffer : Bool

-- `PREDFINED_SCRATCH_SIZE`, 64 MB
abbrev pub predefined_scratch_size : ℕ
predefined_scratch_size = 2 ^ 26

-- `a || b` on tests that may fault: the second is not made when the first holds.
infixr 30 ◌||?◌
abbrev pub ◌||?◌ : Result Bool → Result Bool → Result Bool
a ||? b = a >>= λ t. if t then ok true else b

abbrev pub is_nonzero : Result ℕ → Result Bool
is_nonzero m = m >>= λ n. ok (not (n == 0))

-- `(a + b - 1) / b` on `size_t`
abbrev pub div_up : ℕ → ℕ → Result ℕ
div_up a b = div (u64 (a + b + 2 ^ 64 - 1)) b

-- `(a + align - 1) / align * align` on `size_t`
abbrev pub round_up : ℕ → ℕ → Result ℕ
round_up a align = div_up a align >>= λ n. ok (u64 (n * align))

-- `checkMessageSize`
unfoldable pub check_message_size : Plan → Result (Unit {0})
check_message_size p = do
  unaligned ←
      is_nonzero (mod_of p.input_size p.buffer_alignment)
      ||? is_nonzero (mod_of p.output_size p.buffer_alignment)
      ||? is_nonzero (div p.input_size p.buffer_alignment >>= λ n. mod_of n p.input_chunks)
      ||? is_nonzero (div p.output_size p.buffer_alignment >>= λ n. mod_of n p.output_chunks)
  throw_if unaligned executor_error
  let size = if str_eq p.collective "allgather" then p.output_size else p.input_size
  throw_if (ltb size p.min_message_size || ltb p.max_message_size size) executor_error

-- `getSizeAndChunks`
unfoldable pub get_size_and_chunks : Plan → ℕ → ℕ → Result (ℕ × ℕ)
get_size_and_chunks p input_size output_size =
    if (p.input_chunks == 0) && (p.output_chunks == 0)
    then err (thrown executor_error)
    else if not (p.input_chunks == 0) && not (p.output_chunks == 0)
    then (if input_size / p.input_chunks == output_size / p.output_chunks
        then ok (input_size, p.input_chunks)
        else err (thrown executor_error))
    else if not (p.input_chunks == 0)
    then ok (input_size, p.input_chunks)
    else ok (output_size, p.output_chunks)

-- `calcOffset`
unfoldable pub calc_offset : Plan → ℕ → ℕ → ℕ → Result ℕ
calc_offset p size index slices = do
  nelems' ← div size p.buffer_alignment
  let nelems = u32 nelems'
  min_nelems ← div nelems slices
  remainder ← mod_of nelems slices
  extra ← mod_of index nelems
  let offset = u32 (u32 (index * min_nelems) + (if ltb extra remainder then extra else remainder))
  ok (u64 (offset * p.buffer_alignment))

-- `calcSize`
unfoldable pub calc_size : Plan → ℕ → ℕ → ℕ → Result ℕ
calc_size p size index slices = do
  begin_off ← calc_offset p size index slices
  end_off ← calc_offset p size (u32 (index + 1)) slices
  ok (sub_u32 (u32 end_off) (u32 begin_off))

-- `calMaxScratchChunkSize`
unfoldable pub cal_max_scratch_chunk_size : Plan → ℕ → Result ℕ
cal_max_scratch_chunk_size p scratch_size =
    if p.scratch_chunks == 0
    then ok 0
    else div_up (if p.double_scratch_buffer then scratch_size / 2 else scratch_size)
        p.scratch_chunks
      >>= λ size. round_up size p.buffer_alignment

-- The bytes that `calScratchBufferSize` rounds up: packets take a flag beside the data, and double
-- buffering takes two halves.
abbrev pub scratch_bytes : Plan → ℕ → ℕ
scratch_bytes p size_per_chunk =
    let size =
      if p.is_using_packet
      then u64 (u64 (size_per_chunk * p.scratch_chunks) * 2)
      else u64 (size_per_chunk * p.scratch_chunks) in
    if p.double_scratch_buffer then u64 (size * 2) else size

-- Where a launch begins in the scratch buffer: `scratchOffset` of `launchKernelHelper` in
-- src/core/executor/executor.cc
abbrev pub scratch_offset : Plan → ℕ → ℕ → ℕ
scratch_offset p scratch_size flag =
    if p.double_scratch_buffer && (flag % 2 == 0) then scratch_size / 2 else 0

-- Where the kernel finds an offset of the plan, which counts data: a packet has as many flags.
abbrev pub packet_offset : Plan → ℕ → ℕ
packet_offset p offset = if p.is_using_packet then offset * 2 else offset

-- `calScratchBufferSize`
pub cal_scratch_buffer_size : Plan → ℕ → ℕ → Result ℕ
cal_scratch_buffer_size p input_size output_size =
    if p.reuse_resources && ltb 0 p.scratch_chunks then ok predefined_scratch_size else do
      size_per_chunk ←
          if not (p.input_chunks == 0)
          then div_up input_size p.input_chunks
          else if not (p.output_chunks == 0)
          then div_up output_size p.output_chunks
          else err (thrown executor_error)
      round_up (scratch_bytes p size_per_chunk) p.buffer_alignment

abbrev pub is_scratch : BufferType → Bool
is_scratch BufferType.scratch = true
is_scratch _ = false

-- `getOffset`
unfoldable pub get_offset : Plan → ℕ → ℕ → ℕ → BufferType → Result ℕ
get_offset p input_size output_size chunk_index buffer_type = do
  (size, n_chunks) ← get_size_and_chunks p input_size output_size
  chunk_size ← div_up size n_chunks
  scratch_chunk_size ← cal_max_scratch_chunk_size p predefined_scratch_size
  if is_scratch buffer_type && p.reuse_resources && ltb (u32 scratch_chunk_size) (u32 chunk_size)
      then ok (u64 (chunk_index * scratch_chunk_size))
      else calc_offset p size chunk_index n_chunks

-- `getBufferSize`; the default buffer type of `getOffset` is `BufferType::NONE`.
unfoldable pub get_buffer_size : Plan → ℕ → ℕ → ℕ → ℕ → Result ℕ
get_buffer_size p input_size output_size index n_chunks = do
  begin_off ← get_offset p input_size output_size index BufferType.none
  end_off ← get_offset p input_size output_size (u32 (index + n_chunks)) BufferType.none
  ok (sub_u32 (u32 end_off) (u32 begin_off))

-- The two returns of `getUpperBoundChunkSize` that are no `throw`.
chunk_bound : Plan → ℕ → ℕ → Result ℕ
chunk_bound p size chunks = do
  nelems ← div size p.buffer_alignment
  n ← div_up nelems chunks
  ok (u64 (n * p.buffer_alignment))

-- `getUpperBoundChunkSize`
pub get_upper_bound_chunk_size : Plan → ℕ → ℕ → Result ℕ
get_upper_bound_chunk_size p input_size output_size =
    if not (p.input_chunks == 0)
    then chunk_bound p input_size p.input_chunks
    else if not (p.output_chunks == 0)
    then chunk_bound p output_size p.output_chunks
    else err (thrown executor_error)
