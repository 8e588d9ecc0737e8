-- ===== src/Plan/Channels/Tests.antt =====
-- src/core/executor/execution_plan.cc: the channels of a plan at concrete inputs.
use mscclpp.Base.{ℕ, ◌+◌, max, ◌<◌, ◌≡◌, ◌↔◌, refl, List, [], ◌∷◌, ok, ℕ_discrete, arith}
use mscclpp.Plan.Types.{memory, convert_to_channel_type}
use mscclpp.Plan.Channels.{
  ChannelEntry, Gpu, Channels, no_channels, setup_channels, parse_channels, parse_channel,
  connect_peers, get_unpaired_channel_infos, get_connected_peers, infos_by_dst_rank, insert_infos,
  insert_peers, insert_peer,
}
use mscclpp.Plan.Channels.Counts.{times, connections, setup_channels_lem}
use mscclpp.Plan.Channels.Peers.{
  IsSorted, mentions, source_times, get_connected_peers_lem, get_unpaired_channel_infos_lem,
}

abbrev channel : List ℕ → ChannelEntry
channel peers = record {
  channel_type = "memory";
  buffer_type = "i";
  rank_groups = [];
  connected_to = peers;
}

-- Rank 0 has two channels to rank 1, which has one to rank 0.
abbrev gpus : List Gpu
gpus =
    record { id = 0; channels = channel (1 ∷ []) ∷ channel (1 ∷ 2 ∷ []) ∷ [] }
    ∷ record { id = 1; channels = channel (0 ∷ []) ∷ [] }
    ∷ []

channels_set_up : (s : Channels) × (setup_channels gpus no_channels ≡ ok s)
unfolding setup_channels parse_channels parse_channel convert_to_channel_type
channels_set_up = (_, refl)

setup_channels_lem_example :
    (channels_set_up.0.channel_count 0 memory 1
      ≡ connections memory 1 (channels_set_up.0.infos_of 0))
    × (channels_set_up.0.channel_count 0 memory 1 ≡ times 0 (channels_set_up.0.sources 1 memory))
setup_channels_lem_example =
    setup_channels_lem gpus channels_set_up.0 0 memory 1 (((λ e. omega arith), tt), (tt, tt))
      channels_set_up.1

get_unpaired_channel_infos_lem_example :
    channels_set_up.0.channel_count 1 memory 0
      + connections memory 0 (get_unpaired_channel_infos channels_set_up.0 1 2 memory)
    ≡ max (channels_set_up.0.channel_count 1 memory 0) (channels_set_up.0.channel_count 0 memory 1)
get_unpaired_channel_infos_lem_example =
    get_unpaired_channel_infos_lem channels_set_up.0 1 2 memory 0 (λ e. omega arith) (omega arith)

-- Rank 1 is connected to rank 0 both ways, and the set has it once.
get_connected_peers_test : get_connected_peers channels_set_up.0 1 ≡ 0 ∷ []
unfolding channels_set_up get_connected_peers infos_by_dst_rank insert_infos insert_peers
    insert_peer connect_peers no_channels ℕ_discrete
get_connected_peers_test = refl

get_connected_peers_lem_example :
    IsSorted (get_connected_peers channels_set_up.0 1)
    × ((0 < times 0 (get_connected_peers channels_set_up.0 1))
        ↔ (0 < source_times 0 channels_set_up.0 1 + mentions 0 (channels_set_up.0.infos_of 1)))
get_connected_peers_lem_example = get_connected_peers_lem channels_set_up.0 1 0
