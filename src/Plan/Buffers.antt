-- ===== src/Plan/Buffers.antt =====
-- src/core/executor/execution_plan.cc: `parseRemoteBuffer`, for one GPU of the plan. The JSON document is
-- a record of the fields that are read.
pub mod Access
pub mod Index
mod Tests
use Prim.Native.String.{String}
use mscclpp.Base.{
  ℕ, ◌+◌, ◌≡◌, Bool, true, false, ◌||◌, not, ◌&&◌, List, [], ◌∷◌, ◌++◌, length, Result, ok, err,
  ◌>>=◌, ◌==◌, if◌then◌else◌, update,
}
use mscclpp.Plan.Types.{BufferType, ChannelType, convert_to_buffer_type, convert_to_channel_type}

-- An element of `gpu["remote_buffers"]`
pub record RemoteBuffer : Type 0 where
  pub rank : ℕ
  pub type : String
  pub access_channel_types : List String

-- `BufferInfo`
pub record BufferInfo : Type 0 where
  pub ori_rank : ℕ
  pub access_rank : ℕ
  pub buffer_type : BufferType
  pub channels : List ChannelType

-- `remoteBufferInfos_`, `bufferIndexMap_` and `channelCountMap` of one GPU, and `localBufferToSend_`.
-- A map gives 0, or the empty list, for a missing key.
pub record Buffers : Type 0 where
  pub infos : List BufferInfo
  pub index : ℕ → ChannelType → ℕ
  pub count : ChannelType → ℕ
  pub to_send : ℕ → List BufferInfo

abbrev pub same_channel : ChannelType → ChannelType → Bool
same_channel ChannelType.none ChannelType.none = true
same_channel ChannelType.memory ChannelType.memory = true
same_channel ChannelType.port ChannelType.port = true
same_channel ChannelType.switch ChannelType.switch = true
same_channel _ _ = false

-- `bufferIndexMap[{bufferId, chanType}] = channelCountMap[chanType]++`
pub add_access : ℕ → ChannelType → Buffers → Buffers
add_access id c b = record b {
  index = λ i d. if (id == i) && same_channel c d then b.count c else b.index i d;
  count = λ d. if same_channel c d then b.count c + 1 else b.count d;
}

-- The inner loop, with `accessChannels`
pub parse_access : ℕ → List String → Buffers → Result (Buffers × List ChannelType)
parse_access id [] b = ok (b, [])
parse_access id (w ∷ ws) b = do
  c ← convert_to_channel_type w
  (b', cs) ← parse_access id ws (add_access id c b)
  ok (b', c ∷ cs)

pub push : BufferInfo → Buffers → Buffers
push info b = record b {
  infos = b.infos ++ (info ∷ []);
  to_send = update b.to_send info.ori_rank (b.to_send info.ori_rank ++ (info ∷ []));
}

-- One iteration of the outer loop
pub parse_buffer : ℕ → RemoteBuffer → Buffers → Result Buffers
parse_buffer gpu_rank r b = do
  type ← convert_to_buffer_type r.type
  (b', cs) ← parse_access (length b.infos) r.access_channel_types b
  ok (
      push (record { ori_rank = r.rank; access_rank = gpu_rank; buffer_type = type; channels = cs })
        b')

unfoldable pub parse_remote_buffer : ℕ → List RemoteBuffer → Buffers → Result Buffers
parse_remote_buffer gpu_rank [] b = ok b
parse_remote_buffer gpu_rank (r ∷ rs) b = do
  b' ← parse_buffer gpu_rank r b
  parse_remote_buffer gpu_rank rs b'

-- A GPU before its loop; `sent` is what other GPUs put into `localBufferToSend_`.
pub no_buffers : (ℕ → List BufferInfo) → Buffers
no_buffers sent = record { infos = []; index = λ i c. 0; count = λ c. 0; to_send = sent }

abbrev pub accesses : ChannelType → List ChannelType → Bool
accesses c [] = false
accesses c (d ∷ ds) = same_channel d c || accesses c ds

abbrev pub distinct : List ChannelType → Bool
distinct [] = true
distinct (c ∷ cs) = not (accesses c cs) && distinct cs

-- The buffers that are accessed by a type of channel, in their order.
abbrev pub accessed_by : ChannelType → List BufferInfo → List BufferInfo
accessed_by c [] = []
accessed_by c (b ∷ bs) =
    let rest = accessed_by c bs in if accesses c b.channels then b ∷ rest else rest
