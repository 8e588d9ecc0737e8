-- ===== src/Plan/Load/Tests.antt =====
-- src/core/executor/execution_plan.cc: loading at concrete inputs.
use mscclpp.Base.{◌≢◌, inl, ◌-◌, ◌^◌, ◌≡◌, refl, false, [], ◌∷◌, none, some, ok}
use mscclpp.Plan.Types.{get_op_type, convert_to_buffer_type}
use mscclpp.Plan.Sizes.{
  Plan, calc_offset, calc_size, get_offset, get_buffer_size, get_size_and_chunks,
  cal_max_scratch_chunk_size, check_message_size,
}
use mscclpp.Plan.Buffers.{no_buffers, parse_remote_buffer}
use mscclpp.Plan.Channels.{no_channels, setup_channels, parse_channels}
use mscclpp.Plan.Operations.{Op, Buffer, setup_operation, setup_buffers, setup_buffer}
use mscclpp.Plan.Document.{GpuPlan, Document}
use mscclpp.Plan.Load.{
  Impl, reset, operations_reset, load_execution_plan, light_load_execution_plan,
  setup_block_channels, setup_remote_buffers, parse_remote_buffers, blocks_operations,
  block_operations,
}
use mscclpp.Plan.Load.Again.{light_load_again}
use mscclpp.Plan.Load.Empty.{load_without_chunks}

-- A plan as its constructor leaves it
abbrev plan : Plan
plan = record {
  name = "copy";
  collective = "allreduce";
  is_using_packet = false;
  reuse_resources = false;
  rank = 0;
  input_chunks = 0;
  output_chunks = 0;
  scratch_chunks = 0;
  input_size = 0;
  output_size = 0;
  n_threads_per_block = 0;
  min_message_size = 0;
  max_message_size = 2 ^ 64 - 1;
  buffer_alignment = 16;
  is_in_place = false;
  double_scratch_buffer = false;
}

abbrev buffer : Buffer
buffer = record { type = some "i"; buffer_id = none; switch_channel_id = none; index = 0; size = 1 }

abbrev copy : Op
copy = record {
  name = "copy";
  channel_type = none;
  channel_ids = none;
  tbg_info = none;
  src_buff = some (buffer ∷ []);
  dst_buff = some (record buffer { type = some "o" } ∷ []);
  barrier_id = none;
  num_threadblocks = none;
  semaphore_ids = none;
  iter_context = none;
  ops_size = 0;
}

-- One rank whose one thread block copies its input
abbrev document : Document
document = record {
  name = "copy";
  collective = "allreduce";
  protocol = "LL";
  in_place = false;
  num_threads_per_block = none;
  min_message_size = none;
  max_message_size = none;
  gpus =
      record {
        id = 0;
        input_chunks = 1;
        output_chunks = 1;
        scratch_chunks = 0;
        channels = [];
        remote_buffers = [];
        semaphores = none;
        threadblocks =
            record { id = 0; channels = []; remote_buffer_refs = none; ops = (copy, []) ∷ [] } ∷ [];
      }
      ∷ [];
}

abbrev fresh : Impl
fresh = record {
  plan = plan;
  channels = no_channels;
  remote = λ r. no_buffers (λ q. []);
  to_send = λ q. [];
  memory_channels = [];
  port_channels = [];
  nvls_channels = [];
  memory_buffers = [];
  port_buffers = [];
  semaphore_infos = [];
  operations = [];
}

loaded : (s : Impl) × (load_execution_plan document 64 64 0 0 (reset fresh) ≡ ok s)
unfolding load_execution_plan check_message_size setup_block_channels setup_channels parse_channels
    setup_remote_buffers parse_remote_buffers parse_remote_buffer blocks_operations block_operations
    setup_operation setup_buffers setup_buffer get_op_type convert_to_buffer_type get_offset
    get_buffer_size get_size_and_chunks calc_offset calc_size cal_max_scratch_chunk_size
loaded = (_, refl)

light_load_again_example :
    light_load_execution_plan document 128 128 0 0 (operations_reset loaded.0)
    ≡ load_execution_plan document 128 128 0 0 (reset loaded.0)
light_load_again_example = light_load_again document fresh loaded.0 64 64 0 0 128 128 0 0 loaded.1

-- One rank that only writes its output
abbrev gather_only : GpuPlan
gather_only = record {
  id = 0;
  input_chunks = 0;
  output_chunks = 1;
  scratch_chunks = 0;
  channels = [];
  remote_buffers = [];
  semaphores = none;
  threadblocks = [];
}

abbrev gather_document : Document
gather_document = record document { gpus = gather_only ∷ [] }

load_without_chunks_example :
    (load_execution_plan gather_document 64 64 0 0 fresh ≢ ok fresh)
    × (light_load_execution_plan gather_document 64 64 0 0 fresh ≢ ok fresh)
load_without_chunks_example =
    load_without_chunks gather_document fresh fresh gather_only 64 64 0 0 refl (inl refl)
