-- ===== src/Plan/Operations.antt =====
-- src/core/executor/execution_plan.cc: `setupSemaphores`, `setupOperations` and `setupOperation`. The
-- JSON document is a record of the fields that are read, with `contains` as an option. The members of
-- the unions in `Operation` are kept apart, and a write past the end of an array is a fault.
pub mod Slicing
mod Tests
use Prim.Native.String.{String}
use mscclpp.Base.{
  ℕ, zero, suc, ◌+◌, ◌-◌, ◌*◌, ◌/◌, ◌%◌, ◌^◌, Bool, true, false, List, [], ◌∷◌, ◌++◌, Option, none,
  some, Result, ok, err, thrown, executor_error, out_of_range, ◌>>=◌, ◌>>◌, div, ltb, leb,
  if◌then◌else◌, length, take, get_elem?, map, u32, u64,
}
use mscclpp.Plan.Types.{
  BufferType, ChannelType, OperationType, input, output, scratch, memory, port, nop, pipeline,
  get_op_type, convert_to_buffer_type, convert_to_channel_type,
}
use mscclpp.Plan.Sizes.{
  Plan, calc_offset, calc_size, get_offset, get_buffer_size, get_upper_bound_chunk_size, div_up,
}
use mscclpp.Plan.Channels.{NvlsInfo}

-- An element of `op["src_buff"]` or `op["dst_buff"]`
pub record Buffer : Type 0 where
  pub type : Option String
  pub buffer_id : Option ℕ
  pub switch_channel_id : Option ℕ
  pub index : ℕ
  pub size : ℕ

-- `op["iter_context"]`
pub record IterContext : Type 0 where
  pub unit_size : ℕ
  pub num_chunks : ℕ

-- An operation of the document; `tbg_info` has the thread block and the size of its group, and
-- `ops_size` is `op["ops"].size()`.
pub record Op : Type 0 where
  pub name : String
  pub channel_type : Option String
  pub channel_ids : Option (List ℕ)
  pub tbg_info : Option (ℕ × ℕ)
  pub src_buff : Option (List Buffer)
  pub dst_buff : Option (List Buffer)
  pub barrier_id : Option ℕ
  pub num_threadblocks : Option ℕ
  pub semaphore_ids : Option (List ℕ)
  pub iter_context : Option IterContext
  pub ops_size : ℕ

-- `BufferRef`: the member of the union that was written last
pub data BufferRef : Type 0 where
  no_ref : BufferRef
  by_id : (id : ℕ) → BufferRef
  by_type : (type : BufferType) → BufferRef

-- `nvlsInputIndex` and `nvlsInputBufferType`, or the two for the output
pub record NvlsRef : Type 0 where
  pub nvls_index : ℕ
  pub nvls_type : BufferType

-- One element of `inputBufferRefs`, `inputOffsets` and `inputBufferSizes`, or of those of the output
pub record BufferSlice : Type 0 where
  pub ref : BufferRef
  pub nvls : Option NvlsRef
  pub offset : ℕ  -- uint32_t
  pub slice_size : ℕ  -- uint32_t

-- `Operation`
pub record Operation : Type 0 where
  pub type : OperationType
  pub channel : ChannelType
  pub channel_indexes : List ℕ
  pub inputs : List BufferSlice
  pub outputs : List BufferSlice
  pub device_syncer_index : ℕ
  pub n_thread_blocks : ℕ
  pub device_semaphore_ids : List ℕ
  pub unit_size : ℕ
  pub n_iterations : ℕ
  pub n_operations : ℕ

-- What `setupOperation` reads of the plan, for one rank, and its two constant offsets
pub record Context : Type 0 where
  pub plan : Plan
  pub memory_buffers : List (List (ℕ × BufferType))
  pub port_buffers : List (List (ℕ × BufferType))
  pub nvls_channels : List (List ℕ)
  pub nvls_infos : List NvlsInfo
  pub const_src_offset : ℕ
  pub const_dst_offset : ℕ

abbrev pub max_channel_per_operation : ℕ
max_channel_per_operation = 8

abbrev pub max_buffers_per_operation : ℕ
max_buffers_per_operation = 10

abbrev pub max_device_semaphores : ℕ
max_device_semaphores = 16

module _ {ℓ} {A : Type ℓ} where
  abbrev pub or_fault : Option A → Result A
  or_fault none = err out_of_range
  or_fault (some a) = ok a

  abbrev pub at : List A → ℕ → Result A
  at xs i = or_fault (get_elem? xs i)

  -- Writes to the first elements of an array of `bound`
  abbrev pub within : ℕ → List A → Result (List A)
  within bound xs = if leb (length xs) bound then ok xs else err out_of_range

-- `getConstOffset`
abbrev pub get_const_offset : Context → BufferType → Result ℕ
get_const_offset x input = ok x.const_src_offset
get_const_offset x output = ok x.const_dst_offset
get_const_offset x scratch = ok 0
get_const_offset x _ = err (thrown executor_error)

abbrev pub buffer_type_at : List (List (ℕ × BufferType)) → ℕ → ℕ → Result BufferType
buffer_type_at buffers tb id = do of_block ← at buffers tb; (_, type) ← at of_block id; ok type

-- `getRemoteBufferTypeWithId`
abbrev pub get_remote_buffer_type_with_id : Context → ℕ → ℕ → ChannelType → Result BufferType
get_remote_buffer_type_with_id x id tb memory = buffer_type_at x.memory_buffers tb id
get_remote_buffer_type_with_id x id tb port = buffer_type_at x.port_buffers tb id
get_remote_buffer_type_with_id x id tb _ = err (thrown executor_error)

-- The local variables of the loop over the buffers
pub record Chosen : Type 0 where
  pub buffer_type : BufferType
  pub const_offset : ℕ
  pub ref : BufferRef
  pub nvls : Option NvlsRef

abbrev pub choose_type : Option String → Chosen → Result Chosen
choose_type none c = ok c
choose_type (some word) c = do
  type ← convert_to_buffer_type word
  ok record c { buffer_type = type; ref = by_type type }

abbrev pub choose_id : Context → ℕ → ChannelType → Option ℕ → Chosen → Result Chosen
choose_id x tb channel none c = ok c
choose_id x tb channel (some id) c = do
  type ← get_remote_buffer_type_with_id x id tb channel
  offset ← get_const_offset x type
  ok record c { buffer_type = type; const_offset = offset; ref = by_id (id % 256) }

abbrev pub choose_switch : Context → ℕ → Option ℕ → Chosen → Result Chosen
choose_switch x tb none c = ok c
choose_switch x tb (some id) c = do
  of_block ← at x.nvls_channels tb
  channel_idx ← at of_block id
  info ← at x.nvls_infos channel_idx
  offset ← get_const_offset x info.nvls_buffer
  ok record c {
    buffer_type = info.nvls_buffer;
    const_offset = offset;
    nvls = some record { nvls_index = id % 256; nvls_type = info.nvls_buffer };
  }

abbrev pub choose : Context → ℕ → ChannelType → Buffer → Result Chosen
choose x tb channel b =
    choose_type b.type
      (record { buffer_type = BufferType.none; const_offset = 0; ref = no_ref; nvls = none })
    >>= λ c. choose_id x tb channel b.buffer_id c >>= λ c. choose_switch x tb b.switch_channel_id c

-- One iteration of the loop over the buffers: thread block `tb_id` of a group of `tbg_size` takes its
-- slice.
unfoldable pub setup_buffer : Context → ℕ → ChannelType → ℕ → ℕ → Buffer → Result BufferSlice
setup_buffer x tb channel tb_id tbg_size b = do
  let p = x.plan
  c ← choose x tb channel b
  chunk_offset ← get_offset p p.input_size p.output_size (u32 b.index) c.buffer_type
  size ← get_buffer_size p p.input_size p.output_size (u32 b.index) (u32 b.size)
  slice_offset ← calc_offset p size tb_id tbg_size
  slice_size ← calc_size p size tb_id tbg_size
  ok (record {
    ref = c.ref;
    nvls = c.nvls;
    offset = u32 (u64 (u64 (chunk_offset + c.const_offset) + slice_offset));
    slice_size = u32 slice_size;
  })

unfoldable pub setup_buffers :
    Context → ℕ → ChannelType → ℕ → ℕ → List Buffer → Result (List BufferSlice)
setup_buffers x tb channel tb_id tbg_size [] = ok []
setup_buffers x tb channel tb_id tbg_size (b ∷ bs) = do
  slice ← setup_buffer x tb channel tb_id tbg_size b
  slices ← setup_buffers x tb channel tb_id tbg_size bs
  ok (slice ∷ slices)

abbrev pub or_default {ℓ} : {A : Type ℓ} → A → Option A → A
or_default a none = a
or_default a (some b) = b

abbrev pub read_channel_type : Option String → Result ChannelType
read_channel_type none = ok ChannelType.none
read_channel_type (some word) = convert_to_channel_type word

-- `nIterations`: `int` times `size_t`, then a `uint32_t`
unfoldable pub iterations : Plan → IterContext → Result ℕ
iterations p c = do
  bound ← get_upper_bound_chunk_size p p.input_size p.output_size
  n ← div (u64 (u64 (c.num_chunks * bound) + u32 (u32 c.unit_size + 2 ^ 32 - 1))) (u32 c.unit_size)
  ok (u32 n)

abbrev pub read_iterations : Plan → Option IterContext → Result ℕ
read_iterations p none = ok 0
read_iterations p (some c) = iterations p c

abbrev pub unit_of : Option IterContext → ℕ
unit_of none = 0
unit_of (some c) = u32 c.unit_size

abbrev pub inner_count : Option IterContext → ℕ → ℕ
inner_count none n = 0
inner_count (some c) n = n % 256

-- The elements that the loop over the buffers reaches: their number is a `uint8_t`.
abbrev pub counted {ℓ} : {A : Type ℓ} → List A → List A
counted xs = take (length xs % 256) xs

-- `tbId` and `tbgSize`, which are `uint32_t`
abbrev pub tb_and_size : Option (ℕ × ℕ) → ℕ × ℕ
tb_and_size none = (0, 1)
tb_and_size (some (tb_id, tbg_size)) = (u32 tb_id, u32 tbg_size)

-- `setupOperation`
unfoldable pub setup_operation : Context → ℕ → Op → Result Operation
setup_operation x tb op = do
  let (tb_id, tbg_size) = tb_and_size op.tbg_info
  type ← get_op_type op.name
  channel ← read_channel_type op.channel_type
  channel_ids ← within max_channel_per_operation (or_default [] op.channel_ids)
  src ← within max_buffers_per_operation (counted (or_default [] op.src_buff))
  inputs ← setup_buffers x tb channel tb_id tbg_size src
  dst ← within max_buffers_per_operation (counted (or_default [] op.dst_buff))
  outputs ← setup_buffers x tb channel tb_id tbg_size dst
  semaphores ← within max_device_semaphores (or_default [] op.semaphore_ids)
  n_iterations ← read_iterations x.plan op.iter_context
  ok (record {
    type = type;
    channel = channel;
    channel_indexes = map (λ id. id % 256) channel_ids;
    inputs = inputs;
    outputs = outputs;
    device_syncer_index = u32 (or_default 0 op.barrier_id);
    n_thread_blocks = u32 (or_default 0 op.num_threadblocks);
    device_semaphore_ids = map u32 semaphores;
    unit_size = unit_of op.iter_context;
    n_iterations = n_iterations;
    n_operations = inner_count op.iter_context op.ops_size;
  })
