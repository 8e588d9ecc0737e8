-- ===== src/Plan/Load.antt =====
-- src/core/executor/execution_plan.cc: `loadExecutionPlan` and `lightLoadExecutionPlan`, over a record of
-- the JSON document.
mod Steps
pub mod Again
pub mod Empty
mod Tests
use Prim.Native.String.{String}
use text.Mathlib.Text.{◌==◌ as str_eq}
use mscclpp.Base.{
  ℕ, zero, suc, ◌-◌, ◌^◌, Bool, true, false, not, ◌||◌, List, [], ◌∷◌, ◌++◌, Option, none, some,
  Result, ok, err, thrown, executor_error, out_of_range, throw_if, ◌>>=◌, ◌>>◌, ◌==◌, if◌then◌else◌,
  length, get_elem?, set, update, map,
}
use mscclpp.Plan.Types.{
  BufferType, ChannelType, OperationType, memory, port, switch, pipeline, convert_to_buffer_type,
  convert_to_channel_type,
}
use mscclpp.Plan.Sizes.{Plan, check_message_size}
use mscclpp.Plan.Buffers.{RemoteBuffer, BufferInfo, Buffers, no_buffers, parse_remote_buffer}
use mscclpp.Plan.Channels.{ChannelEntry, NvlsInfo, Gpu, Channels, no_channels, setup_channels}
use mscclpp.Plan.Document.{ChannelRef, BufferIds, Threadblock, GpuPlan, Document}
use mscclpp.Plan.Operations.{Op, Operation, Context, at, or_default, setup_operation}

-- `ExecutionPlan::Impl`
pub record Impl : Type 0 where
  pub plan : Plan
  pub channels : Channels
  pub remote : ℕ → Buffers  -- `remoteBufferInfos_` and `bufferIndexMap_` by rank
  pub to_send : ℕ → List BufferInfo
  pub memory_channels : List (List ℕ)
  pub port_channels : List (List ℕ)
  pub nvls_channels : List (List ℕ)
  pub memory_buffers : List (List (ℕ × BufferType))
  pub port_buffers : List (List (ℕ × BufferType))
  pub semaphore_infos : List ℕ
  pub operations : List (List Operation)

-- `v.resize(n)` of a vector of vectors
abbrev pub resize {ℓ} : {A : Type ℓ} → ℕ → List (List A) → List (List A)
resize zero xs = []
resize (suc n) [] = [] ∷ resize n []
resize (suc n) (x ∷ xs) = x ∷ resize n xs

-- `v[i].push_back(a)`
abbrev pub push_at {ℓ} : {A : Type ℓ} → List (List A) → ℕ → A → Result (List (List A))
push_at xs i a = at xs i >>= λ old. ok (set xs i (old ++ (a ∷ [])))

abbrev pub push_all_at {ℓ} : {A : Type ℓ} → List (List A) → ℕ → List A → Result (List (List A))
push_all_at xs i [] = ok xs
push_all_at xs i (a ∷ rest) = push_at xs i a >>= λ xs. push_all_at xs i rest

abbrev pub add_ids : ChannelType → ℕ → List ℕ → Impl → Result Impl
add_ids memory tb ids s =
    push_all_at s.memory_channels tb ids >>= λ v. ok record s { memory_channels = v }
add_ids port tb ids s =
    push_all_at s.port_channels tb ids >>= λ v. ok record s { port_channels = v }
add_ids switch tb ids s =
    push_all_at s.nvls_channels tb ids >>= λ v. ok record s { nvls_channels = v }
add_ids _ tb ids s = ok s

-- The buffer type of the key, which is not used
abbrev pub read_buff : Option String → Result BufferType
read_buff none = ok BufferType.none
read_buff (some word) = convert_to_buffer_type word

abbrev pub block_channels : ℕ → List ChannelRef → Impl → Result Impl
block_channels tb [] s = ok s
block_channels tb (r ∷ rs) s = do
  c ← convert_to_channel_type r.channel_type
  key ← read_buff r.buff
  s' ← add_ids c tb r.channel_ids s
  block_channels tb rs s'

abbrev pub blocks_channels : List Threadblock → Impl → Result Impl
blocks_channels [] s = ok s
blocks_channels (b ∷ bs) s = block_channels b.id b.channels s >>= λ s. blocks_channels bs s

abbrev pub gpu_channels : GpuPlan → Gpu
gpu_channels g = record { id = g.id; channels = g.channels }

-- `setupChannels`
unfoldable pub setup_block_channels : List GpuPlan → GpuPlan → Impl → Result Impl
setup_block_channels gpus gpu s = do
  channels ← setup_channels (map gpu_channels gpus) s.channels
  let n = length gpu.threadblocks
  blocks_channels gpu.threadblocks record s {
    channels = channels;
    memory_channels = resize n s.memory_channels;
    port_channels = resize n s.port_channels;
    nvls_channels = resize n s.nvls_channels;
  }

-- `parseRemoteBuffer`
unfoldable pub parse_remote_buffers : List GpuPlan → Impl → Result Impl
parse_remote_buffers [] s = ok s
parse_remote_buffers (g ∷ gs) s = do
  b ←
      parse_remote_buffer g.id g.remote_buffers
        record (s.remote g.id) { count = λ c. 0; to_send = s.to_send }
  parse_remote_buffers gs record s { remote = update s.remote g.id b; to_send = b.to_send }

-- `{bufferIndexMap_[rank][{bufferId, type}], remoteBufferInfos_[rank][bufferId].bufferType}`
abbrev pub buffer_entry : Buffers → ChannelType → ℕ → Result (ℕ × BufferType)
buffer_entry b c id = at b.infos id >>= λ info. ok (b.index id c, info.buffer_type)

abbrev pub buffer_entries : Buffers → ChannelType → List ℕ → Result (List (ℕ × BufferType))
buffer_entries b c [] = ok []
buffer_entries b c (id ∷ ids) = do
  entry ← buffer_entry b c id
  entries ← buffer_entries b c ids
  ok (entry ∷ entries)

abbrev pub add_buffers : Buffers → ChannelType → ℕ → List ℕ → Impl → Result Impl
add_buffers b port tb ids s = do
  entries ← buffer_entries b port ids
  v ← push_all_at s.port_buffers tb entries
  ok record s { port_buffers = v }
add_buffers b memory tb ids s = do
  entries ← buffer_entries b memory ids
  v ← push_all_at s.memory_buffers tb entries
  ok record s { memory_buffers = v }
add_buffers b _ tb ids s = ok s

abbrev pub block_buffers : ℕ → ℕ → List BufferIds → Impl → Result Impl
block_buffers rank tb [] s = ok s
block_buffers rank tb (r ∷ rs) s = do
  c ← convert_to_channel_type r.access_channel_type
  s' ← add_buffers (s.remote rank) c tb r.remote_buffer_ids s
  block_buffers rank tb rs s'

abbrev pub blocks_buffers : ℕ → List Threadblock → Impl → Result Impl
blocks_buffers rank [] s = ok s
blocks_buffers rank (b ∷ bs) s =
    block_buffers rank b.id (or_default [] b.remote_buffer_refs) s >>= λ s. blocks_buffers rank bs s

-- `setupRemoteBuffers` of a rank
unfoldable pub setup_remote_buffers : ℕ → List GpuPlan → GpuPlan → Impl → Result Impl
setup_remote_buffers rank gpus gpu s = do
  s' ← parse_remote_buffers gpus s
  let n = length gpu.threadblocks
  blocks_buffers rank gpu.threadblocks record s' {
    memory_buffers = resize n s'.memory_buffers;
    port_buffers = resize n s'.port_buffers;
  }

-- `setupSemaphores`
abbrev pub setup_semaphores : GpuPlan → Impl → Impl
setup_semaphores gpu s = record s {
  semaphore_infos = s.semaphore_infos ++ or_default [] gpu.semaphores;
}

abbrev pub is_pipeline : OperationType → Bool
is_pipeline pipeline = true
is_pipeline _ = false

abbrev pub setup_each : Context → ℕ → List Op → Result (List Operation)
setup_each x tb [] = ok []
setup_each x tb (op ∷ ops) = do
  operation ← setup_operation x tb op
  operations ← setup_each x tb ops
  ok (operation ∷ operations)

-- The operations of a thread block: those of a pipeline follow it.
unfoldable pub block_operations : Context → ℕ → List (Op × List Op) → Result (List Operation)
block_operations x tb [] = ok []
block_operations x tb ((op, inner) ∷ ops) = do
  operation ← setup_operation x tb op
  pipelined ← if is_pipeline operation.type then setup_each x tb inner else ok []
  rest ← block_operations x tb ops
  ok (operation ∷ pipelined ++ rest)

unfoldable pub blocks_operations : Context → List Threadblock → Result (List (List Operation))
blocks_operations x [] = ok []
blocks_operations x (b ∷ bs) = do
  ops ← block_operations x b.id b.ops
  rest ← blocks_operations x bs
  ok (ops ∷ rest)

abbrev pub context : Impl → ℕ → ℕ → Context
context s const_src_offset const_dst_offset = record {
  plan = s.plan;
  memory_buffers = s.memory_buffers;
  port_buffers = s.port_buffers;
  nvls_channels = s.nvls_channels;
  nvls_infos = s.channels.nvls_of s.plan.rank;
  const_src_offset = const_src_offset;
  const_dst_offset = const_dst_offset;
}

-- `setupOperations`
abbrev pub setup_operations : GpuPlan → ℕ → ℕ → Impl → Result Impl
setup_operations gpu const_src_offset const_dst_offset s = do
  blocks ← blocks_operations (context s const_src_offset const_dst_offset) gpu.threadblocks
  ok record s { operations = s.operations ++ blocks }

abbrev pub set_protocol : Document → Plan → Plan
set_protocol d p = record p {
  is_using_packet = if str_eq d.protocol "LL" then true else p.is_using_packet;
}

-- What `loadExecutionPlan` reads before the GPUs
abbrev pub set_header : Document → ℕ → ℕ → Plan → Plan
set_header d input_size output_size p =
    let q = set_protocol d p in
    record q {
      collective = d.collective;
      input_size = input_size;
      output_size = output_size;
      n_threads_per_block = or_default 1024 d.num_threads_per_block;
      min_message_size = or_default 0 d.min_message_size;
      max_message_size = or_default (2 ^ 64 - 1) d.max_message_size;
      is_in_place = d.in_place;
    }

abbrev pub set_chunks : GpuPlan → Plan → Plan
set_chunks g p = record p {
  input_chunks = g.input_chunks;
  output_chunks = g.output_chunks;
  scratch_chunks = g.scratch_chunks;
}

abbrev pub set_sizes : ℕ → ℕ → Plan → Plan
set_sizes input_size output_size p = record p { input_size = input_size; output_size = output_size }

-- `gpus[rank]`, checked
abbrev pub own_gpu : Document → Plan → Result GpuPlan
own_gpu d p = do gpu ← at d.gpus p.rank; throw_if (not (gpu.id == p.rank)) executor_error; ok gpu

-- The calls that `loadExecutionPlan` makes before `setupOperations`
abbrev pub set_up : Document → GpuPlan → Impl → Result Impl
set_up d gpu s = do
  s1 ← setup_block_channels d.gpus gpu s
  s2 ← setup_remote_buffers s1.plan.rank d.gpus gpu s1
  ok (setup_semaphores gpu s2)

-- `loadExecutionPlan`
unfoldable pub load_execution_plan : Document → ℕ → ℕ → ℕ → ℕ → Impl → Result Impl
load_execution_plan d input_size output_size const_src_offset const_dst_offset s = do
  throw_if (not (str_eq s.plan.name d.name)) executor_error
  let header = set_header d input_size output_size s.plan
  gpu ← own_gpu d header
  let plan = set_chunks gpu header
  check_message_size plan
  s' ← set_up d gpu record s { plan = plan }
  setup_operations gpu const_src_offset const_dst_offset s'

-- `lightLoadExecutionPlan`
unfoldable pub light_load_execution_plan : Document → ℕ → ℕ → ℕ → ℕ → Impl → Result Impl
light_load_execution_plan d input_size output_size const_src_offset const_dst_offset s = do
  throw_if (not (str_eq s.plan.name d.name)) executor_error
  let header = set_protocol d s.plan
  gpu ← own_gpu d header
  let plan = set_sizes input_size output_size (set_chunks gpu header)
  check_message_size plan
  setup_operations gpu const_src_offset const_dst_offset record s { plan = plan }

-- `operationsReset`
abbrev pub operations_reset : Impl → Impl
operations_reset s = record s { operations = [] }

-- `reset`
abbrev pub reset : Impl → Impl
reset s = record {
  plan = s.plan;
  channels = no_channels;
  remote = λ r. no_buffers (λ q. []);
  to_send = λ q. [];
  memory_channels = [];
  port_channels = [];
  nvls_channels = [];
  memory_buffers = [];
  port_buffers = [];
  semaphore_infos = [];
  operations = [];
}
