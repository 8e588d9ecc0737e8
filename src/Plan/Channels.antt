-- ===== src/Plan/Channels.antt =====
-- src/core/executor/execution_plan.cc: `setupChannels` and the functions that read what it has set up.
-- The JSON document is a record of the fields that are read, and a map is a function.
pub mod Counts
pub mod Peers
mod Tests
use Prim.Native.String.{String}
use mscclpp.Base.{
  ℕ, zero, suc, ◌+◌, ◌-◌, ◌≡◌, Bool, true, false, ◌&&◌, not, List, [], ◌∷◌, ◌++◌, Result, ok, err,
  ◌>>=◌, ◌==◌, ltb, if◌then◌else◌, update,
}
use mscclpp.Plan.Types.{
  BufferType, ChannelType, switch, memory, port, convert_to_buffer_type, convert_to_channel_type,
}
use mscclpp.Plan.Buffers.{same_channel}

-- An element of `channel["rank_groups"]`
pub record RankGroup : Type 0 where
  pub size : ℕ
  pub ranks : List ℕ

-- An element of `gpu["channels"]`
pub record ChannelEntry : Type 0 where
  pub channel_type : String
  pub buffer_type : String
  pub rank_groups : List RankGroup
  pub connected_to : List ℕ

-- `NvlsInfo`
pub record NvlsInfo : Type 0 where
  pub group_ranks : List ℕ
  pub n_chunks : ℕ
  pub nvls_buffer : BufferType

-- `ChannelInfo`
pub record ChannelInfo : Type 0 where
  pub type : ChannelType
  pub connected_peers : List ℕ

-- `channelInfos` and `nvlsInfos` of one GPU, `chanConnectedPeersMap` by peer and type, and
-- `channelCountMap_` by rank, type and peer
pub record Parsed : Type 0 where
  pub channel_infos : List ChannelInfo
  pub nvls_infos : List NvlsInfo
  pub connected_from : ℕ → ChannelType → List ℕ
  pub count : ℕ → ChannelType → ℕ → ℕ

abbrev pub is_switch : ChannelType → Bool
is_switch switch = true
is_switch _ = false

abbrev pub add_groups : BufferType → List RankGroup → List NvlsInfo
add_groups b [] = []
add_groups b (g ∷ gs) =
    record { group_ranks = g.ranks; n_chunks = g.size; nvls_buffer = b } ∷ add_groups b gs

-- `chanConnectedPeersMap[{peer, type}].push_back(rank)` and `channelCountMap_[{rank, type}][peer]++`
abbrev pub connect_peer : ℕ → ChannelType → ℕ → Parsed → Parsed
connect_peer rank c peer p = record p {
  connected_from = λ q d.
      if (peer == q) && same_channel c d
      then p.connected_from q d ++ (rank ∷ [])
      else p.connected_from q d;
  count = λ r d q.
      if ((rank == r) && same_channel c d) && (peer == q) then p.count r d q + 1 else p.count r d q;
}

-- The loop over `channel["connected_to"]`
unfoldable pub connect_peers : ℕ → ChannelType → List ℕ → Parsed → Parsed
connect_peers rank c [] p = p
connect_peers rank c (peer ∷ peers) p = connect_peers rank c peers (connect_peer rank c peer p)

abbrev pub add_info : ChannelType → List ℕ → Parsed → Parsed
add_info c peers p = record p {
  channel_infos = p.channel_infos ++ (record { type = c; connected_peers = peers } ∷ []);
}

abbrev pub add_nvls : List NvlsInfo → Parsed → Parsed
add_nvls infos p = record p { nvls_infos = p.nvls_infos ++ infos }

-- The branch of a channel that is no switch channel
abbrev pub add_channel : ℕ → ChannelType → List ℕ → Parsed → Parsed
add_channel rank c peers p = add_info c peers (connect_peers rank c peers p)

-- One iteration of `parseChannels`
unfoldable pub parse_channel : ℕ → ChannelEntry → Parsed → Result Parsed
parse_channel rank channel p = do
  c ← convert_to_channel_type channel.channel_type
  if is_switch c
      then (convert_to_buffer_type channel.buffer_type >>= λ b.
          ok (add_nvls (add_groups b channel.rank_groups) p))
      else ok (add_channel rank c channel.connected_to p)

-- `parseChannels`
unfoldable pub parse_channels : ℕ → List ChannelEntry → Parsed → Result Parsed
parse_channels rank [] p = ok p
parse_channels rank (channel ∷ channels) p = do
  p' ← parse_channel rank channel p
  parse_channels rank channels p'

-- A GPU, as far as its channels go
pub record Gpu : Type 0 where
  pub id : ℕ
  pub channels : List ChannelEntry

-- `channelInfos_` and `nvlsInfos` by rank, and the two maps
pub record Channels : Type 0 where
  pub infos_of : ℕ → List ChannelInfo
  pub nvls_of : ℕ → List NvlsInfo
  pub sources : ℕ → ChannelType → List ℕ
  pub channel_count : ℕ → ChannelType → ℕ → ℕ

unfoldable pub no_channels : Channels
no_channels = record {
  infos_of = λ r. [];
  nvls_of = λ r. [];
  sources = λ q c. [];
  channel_count = λ r c q. 0;
}

abbrev pub from_channels : Channels → Parsed
from_channels s = record {
  channel_infos = [];
  nvls_infos = [];
  connected_from = s.sources;
  count = s.channel_count;
}

abbrev pub with_gpu : Channels → ℕ → Parsed → Channels
with_gpu s id p = record {
  infos_of = update s.infos_of id p.channel_infos;
  nvls_of = update s.nvls_of id p.nvls_infos;
  sources = p.connected_from;
  channel_count = p.count;
}

-- The first loop of `setupChannels`
unfoldable pub setup_channels : List Gpu → Channels → Result Channels
setup_channels [] s = ok s
setup_channels (gpu ∷ gpus) s = do
  p ← parse_channels gpu.id gpu.channels (from_channels s)
  setup_channels gpus (with_gpu s gpu.id p)

abbrev pub info_of_source : ChannelType → List ℕ → List ChannelInfo
info_of_source c [] = []
info_of_source c (r ∷ rs) = record { type = c; connected_peers = r ∷ rs } ∷ []

-- `channelInfosByDstRank_` of a rank: its second loop goes through the keys of a `std::map` in their
-- order, and a key is there when a rank was pushed for it.
unfoldable pub infos_by_dst_rank : Channels → ℕ → List ChannelInfo
infos_by_dst_rank s peer =
    info_of_source ChannelType.none (s.sources peer ChannelType.none)
    ++ info_of_source memory (s.sources peer memory)
    ++ info_of_source port (s.sources peer port)
    ++ info_of_source switch (s.sources peer switch)

-- `getChannelInfos`
unfoldable pub get_channel_infos : ChannelType → List ChannelInfo → List ChannelInfo
get_channel_infos c [] = []
get_channel_infos c (info ∷ infos) =
    let rest = get_channel_infos c infos in if same_channel info.type c then info ∷ rest else rest

-- `count` infos of one peer
abbrev pub unpaired_with : ChannelType → ℕ → ℕ → List ChannelInfo
unpaired_with c peer zero = []
unpaired_with c peer (suc count) =
    record { type = c; connected_peers = peer ∷ [] } ∷ unpaired_with c peer count

-- The body of the loop of `getUnpairedChannelInfos`
abbrev pub unpaired_peer : Channels → ℕ → ChannelType → ℕ → List ChannelInfo
unpaired_peer s rank c peer =
    if peer == rank
    then []
    else if ltb (s.channel_count rank c peer) (s.channel_count peer c rank)
    then unpaired_with c peer (s.channel_count peer c rank - s.channel_count rank c peer)
    else []

-- Its loop, with `k` peers left from `peer`
unfoldable pub unpaired_from : Channels → ℕ → ChannelType → ℕ → ℕ → List ChannelInfo
unpaired_from s rank c peer zero = []
unpaired_from s rank c peer (suc k) =
    unpaired_peer s rank c peer ++ unpaired_from s rank c (peer + 1) k

-- `getUnpairedChannelInfos`
unfoldable pub get_unpaired_channel_infos : Channels → ℕ → ℕ → ChannelType → List ChannelInfo
get_unpaired_channel_infos s rank world_size c = unpaired_from s rank c 0 world_size

-- `std::set<int>::insert`
unfoldable pub insert_peer : ℕ → List ℕ → List ℕ
insert_peer p [] = p ∷ []
insert_peer p (q ∷ qs) =
    let rest = insert_peer p qs in
    if ltb p q then p ∷ q ∷ qs else if p == q then q ∷ qs else q ∷ rest

unfoldable pub insert_peers : List ℕ → List ℕ → List ℕ
insert_peers [] set_of = set_of
insert_peers (p ∷ ps) set_of = insert_peers ps (insert_peer p set_of)

unfoldable pub insert_infos : List ChannelInfo → List ℕ → List ℕ
insert_infos [] set_of = set_of
insert_infos (info ∷ infos) set_of = insert_infos infos (insert_peers info.connected_peers set_of)

-- `getConnectedPeers`
unfoldable pub get_connected_peers : Channels → ℕ → List ℕ
get_connected_peers s rank =
    insert_infos (infos_by_dst_rank s rank) (insert_infos (s.infos_of rank) [])
