-- ===== src/Plan/Buffers/Tests.antt =====
-- Two remote buffers of GPU 0.
use mscclpp.Base.{◌≡◌, refl, List, [], ◌∷◌, get_elem?, some, Result, ok}
use mscclpp.Plan.Types.{BufferType, ChannelType, convert_to_buffer_type, convert_to_channel_type}
use mscclpp.Plan.Buffers.{
  RemoteBuffer, BufferInfo, Buffers, add_access, parse_access, push, parse_buffer,
  parse_remote_buffer, no_buffers, accessed_by,
}
use mscclpp.Plan.Buffers.Index.{index_is_place}

abbrev remote_buffers : List RemoteBuffer
remote_buffers =
    record { rank = 1; type = "i"; access_channel_types = "port" ∷ [] }
    ∷ record { rank = 2; type = "o"; access_channel_types = "memory" ∷ "port" ∷ [] }
    ∷ []

abbrev before : Buffers
before = no_buffers (λ _. [])

abbrev value_or : Buffers → Result Buffers → Buffers
value_or b (ok t) = t
value_or b _ = b

abbrev parsed : Buffers
parsed = value_or before (parse_remote_buffer 0 remote_buffers before)

abbrev second : BufferInfo
second = record {
  ori_rank = 2;
  access_rank = 0;
  buffer_type = BufferType.output;
  channels = ChannelType.memory ∷ ChannelType.port ∷ [];
}

index_is_place_example :
    get_elem? (accessed_by ChannelType.port parsed.infos) (parsed.index 1 ChannelType.port)
    ≡ some second
unfolding parse_remote_buffer parse_buffer parse_access add_access push no_buffers
    convert_to_buffer_type convert_to_channel_type
index_is_place_example =
    index_is_place 0 remote_buffers (λ _. []) parsed ChannelType.port 1 second refl
      (refl, (refl, tt)) refl refl
