-- ===== src/Plan/Document.antt =====
-- src/core/executor/execution_plan.cc: the JSON document of an execution plan, as records of the fields that
-- are read.
use Prim.Native.String.{String}
use mscclpp.Base.{ℕ, Bool, List, Option}
use mscclpp.Plan.Buffers.{RemoteBuffer}
use mscclpp.Plan.Channels.{ChannelEntry}
use mscclpp.Plan.Operations.{Op}

-- An element of `threadblock["channels"]`
pub record ChannelRef : Type 0 where
  pub channel_type : String
  pub buff : Option String
  pub channel_ids : List ℕ

-- An element of `threadblock["remote_buffer_refs"]`
pub record BufferIds : Type 0 where
  pub access_channel_type : String
  pub remote_buffer_ids : List ℕ

-- An element of `gpu["threadblocks"]`; an operation has those of its pipeline.
pub record Threadblock : Type 0 where
  pub id : ℕ
  pub channels : List ChannelRef
  pub remote_buffer_refs : Option (List BufferIds)
  pub ops : List (Op × List Op)

-- An element of `gpus`
pub record GpuPlan : Type 0 where
  pub id : ℕ
  pub input_chunks : ℕ
  pub output_chunks : ℕ
  pub scratch_chunks : ℕ
  pub channels : List ChannelEntry
  pub remote_buffers : List RemoteBuffer
  pub semaphores : Option (List ℕ)
  pub threadblocks : List Threadblock

-- The document
pub record Document : Type 0 where
  pub name : String
  pub collective : String
  pub protocol : String
  pub in_place : Bool
  pub num_threads_per_block : Option ℕ
  pub min_message_size : Option ℕ
  pub max_message_size : Option ℕ
  pub gpus : List GpuPlan
