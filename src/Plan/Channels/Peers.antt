-- ===== src/Plan/Channels/Peers.antt =====
-- src/core/executor/execution_plan.cc: what `getUnpairedChannelInfos` adds, and the set of
-- `getConnectedPeers`.
use mscclpp.Base.{
  ℕ, zero, suc, ◌+◌, ◌-◌, max, ◌<◌, ◌≤◌, ◌≡◌, ◌≢◌, ◌↔◌, refl, ◌∙◌, inl, inr, true, Bool-cases, List,
  [], ◌∷◌, ◌++◌, ◌==◌, ltb, ltb→lt, if◌then◌else◌, All, bit, arith, ℕ_discrete,
}
use mscclpp.Plan.Types.{ChannelType, switch, memory, port}
use mscclpp.Plan.Buffers.{same_channel}
use mscclpp.Plan.Channels.{
  ChannelInfo, Channels, info_of_source, infos_by_dst_rank, unpaired_with, unpaired_peer,
  unpaired_from, get_unpaired_channel_infos, insert_peer, insert_peers, insert_infos,
  get_connected_peers,
}
use mscclpp.Plan.Channels.Counts.{times, connections, connections-append}

same_channel_self : (c : ChannelType) → same_channel c c ≡ true
same_channel_self ChannelType.none = refl
same_channel_self memory = refl
same_channel_self port = refl
same_channel_self switch = refl

connections-unpaired_with :
    (c : ChannelType) (q peer n : ℕ)
    → connections c q (unpaired_with c peer n) ≡ (if peer == q then n else 0)
connections-unpaired_with c q peer zero = ground arith
connections-unpaired_with c q peer (suc n) =
    let rest = connections-unpaired_with c q peer n in rw (same_channel_self c) ground arith

connections-unpaired_peer :
    (s : Channels) (rank : ℕ) (c : ChannelType) (q peer : ℕ)
    → rank ≢ q
    → connections c q (unpaired_peer s rank c peer)
      ≡ (if peer == q then s.channel_count q c rank - s.channel_count rank c q else 0)
connections-unpaired_peer s rank c q peer ne = elim (ℕ_discrete peer q) [
  | yes e ↦
      let n =
        connections-unpaired_with c q q (s.channel_count q c rank - s.channel_count rank c q) in
      rw e ground arith
  | no away ↦
      let n =
        connections-unpaired_with c q peer
          (s.channel_count peer c rank - s.channel_count rank c peer) in
      ground arith
]

connections-unpaired_above :
    (s : Channels) (rank : ℕ) (c : ChannelType) (q peer k : ℕ)
    → rank ≢ q
    → q < peer
    → connections c q (unpaired_from s rank c peer k) ≡ 0
unfolding unpaired_from
connections-unpaired_above s rank c q peer zero ne lt = refl
connections-unpaired_above s rank c q peer (suc k) ne lt =
    let more =
      connections-append c q (unpaired_peer s rank c peer) (unpaired_from s rank c (peer + 1) k) in
    let here = connections-unpaired_peer s rank c q peer ne in
    let rest = connections-unpaired_above s rank c q (peer + 1) k ne (omega arith) in ground arith

connections-unpaired_from :
    (s : Channels) (rank : ℕ) (c : ChannelType) (q peer k : ℕ)
    → rank ≢ q
    → peer ≤ q
    → q < peer + k
    → connections c q (unpaired_from s rank c peer k)
      ≡ s.channel_count q c rank - s.channel_count rank c q
unfolding unpaired_from
connections-unpaired_from s rank c q peer zero ne le lt = absurd (omega arith)
connections-unpaired_from s rank c q peer (suc k) ne le lt =
    let more =
      connections-append c q (unpaired_peer s rank c peer) (unpaired_from s rank c (peer + 1) k) in
    let here = connections-unpaired_peer s rank c q peer ne in
    elim (ℕ_discrete peer q) [
      | yes e ↦
          let above = connections-unpaired_above s rank c q (peer + 1) k ne (omega arith) in
          ground arith
      | no away ↦
          let rest =
            connections-unpaired_from s rank c q (peer + 1) k ne (omega arith) (omega arith) in
          ground arith
    ]

-- With the infos of `getUnpairedChannelInfos`, a rank has as many connections of a type to another rank
-- below the world size as that rank has to it, or as many as it had, whichever is more.
pub get_unpaired_channel_infos_lem :
    (s : Channels) (rank world_size : ℕ) (c : ChannelType) (q : ℕ)
    → rank ≢ q
    → q < world_size
    → s.channel_count rank c q + connections c q (get_unpaired_channel_infos s rank world_size c)
      ≡ max (s.channel_count rank c q) (s.channel_count q c rank)
unfolding get_unpaired_channel_infos
get_unpaired_channel_infos_lem s rank world_size c q ne lt =
    let n = connections-unpaired_from s rank c q 0 world_size ne (omega arith) (omega arith) in
    omega (arith, n)

-- The members of a set as a list, the smallest first
abbrev pub IsSorted : List ℕ → Type 0
IsSorted [] = Unit
IsSorted (p ∷ ps) = All (λ q. p < q) ps × IsSorted ps

-- How often a rank is a peer in channel infos
abbrev pub mentions : ℕ → List ChannelInfo → ℕ
mentions p [] = 0
mentions p (info ∷ infos) = times p info.connected_peers + mentions p infos

insert_peer-above :
    (m p : ℕ) (qs : List ℕ) → m < p → All (λ q. m < q) qs → All (λ q. m < q) (insert_peer p qs)
unfolding insert_peer
insert_peer-above m p [] h a = (h, tt)
insert_peer-above m p (q ∷ qs) h (hq, a) =
    let rest = insert_peer-above m p qs h a in
    elim (Bool-cases (ltb p q)) [
      | inl t ↦ rw t (h, (hq, a))
      | inr f ↦ elim (Bool-cases (p == q)) [
        | inl t ↦ rw (f, t) (hq, a)
        | inr f' ↦ rw (f, f') (hq, rest)
      ]
    ]

above_trans : (p q : ℕ) (qs : List ℕ) → p < q → All (λ r. q < r) qs → All (λ r. p < r) qs
above_trans p q [] h a = tt
above_trans p q (r ∷ qs) h (lt, a) = (omega arith, above_trans p q qs h a)

insert_peer-IsSorted : (p : ℕ) (qs : List ℕ) → IsSorted qs → IsSorted (insert_peer p qs)
unfolding insert_peer
insert_peer-IsSorted p [] s = (tt, tt)
insert_peer-IsSorted p (q ∷ qs) (a, s) =
    let rest = insert_peer-IsSorted p qs s in
    elim (Bool-cases (ltb p q)) [
      | inl t ↦ let lt = ltb→lt p q t in rw t ((lt, above_trans p q qs lt a), (a, s))
      | inr f ↦ elim (Bool-cases (p == q)) [
        | inl t ↦ rw (f, t) (a, s)
        | inr f' ↦ let lt : q < p = ground arith in rw (f, f') (insert_peer-above q p qs lt a, rest)
      ]
    ]

times-insert_peer :
    (r p : ℕ) (qs : List ℕ) → (0 < times r (insert_peer p qs)) ↔ (0 < bit (p == r) + times r qs)
unfolding insert_peer
times-insert_peer r p [] = ground arith
times-insert_peer r p (q ∷ qs) = let rest = times-insert_peer r p qs in ground arith

insert_peers-IsSorted : (ps qs : List ℕ) → IsSorted qs → IsSorted (insert_peers ps qs)
unfolding insert_peers
insert_peers-IsSorted [] qs s = s
insert_peers-IsSorted (p ∷ ps) qs s =
    insert_peers-IsSorted ps (insert_peer p qs) (insert_peer-IsSorted p qs s)

times-insert_peers :
    (r : ℕ) (ps qs : List ℕ) → (0 < times r (insert_peers ps qs)) ↔ (0 < times r ps + times r qs)
unfolding insert_peers
times-insert_peers r [] qs = ground arith
times-insert_peers r (p ∷ ps) qs =
    let rest = times-insert_peers r ps (insert_peer p qs) in
    let here = times-insert_peer r p qs in ground arith

insert_infos-IsSorted :
    (infos : List ChannelInfo) (qs : List ℕ) → IsSorted qs → IsSorted (insert_infos infos qs)
unfolding insert_infos
insert_infos-IsSorted [] qs s = s
insert_infos-IsSorted (info ∷ infos) qs s =
    insert_infos-IsSorted infos (insert_peers info.connected_peers qs)
      (insert_peers-IsSorted info.connected_peers qs s)

times-insert_infos :
    (r : ℕ) (infos : List ChannelInfo) (qs : List ℕ)
    → (0 < times r (insert_infos infos qs)) ↔ (0 < mentions r infos + times r qs)
unfolding insert_infos
times-insert_infos r [] qs = ground arith
times-insert_infos r (info ∷ infos) qs =
    let rest = times-insert_infos r infos (insert_peers info.connected_peers qs) in
    let here = times-insert_peers r info.connected_peers qs in ground arith

mentions-append :
    (p : ℕ) (xs ys : List ChannelInfo) → mentions p (xs ++ ys) ≡ mentions p xs + mentions p ys
mentions-append p [] ys = omega arith
mentions-append p (x ∷ xs) ys = omega (arith, mentions-append p xs ys)

mentions-four :
    (p : ℕ) (a b c d : List ChannelInfo)
    → mentions p (a ++ b ++ c ++ d) ≡ mentions p a + mentions p b + mentions p c + mentions p d
mentions-four p a b c d =
    omega (
      arith,
      mentions-append p (a ++ b ++ c) d,
      mentions-append p (a ++ b) c,
      mentions-append p a b,
    )

mentions-source :
    (p : ℕ) (c : ChannelType) (rs : List ℕ) → mentions p (info_of_source c rs) ≡ times p rs
mentions-source p c [] = refl
mentions-source p c (r ∷ rs) = omega arith

-- How often a rank is the source of a connection to another, of any type
abbrev pub source_times : ℕ → Channels → ℕ → ℕ
source_times p s rank =
    times p (s.sources rank ChannelType.none)
    + times p (s.sources rank memory)
    + times p (s.sources rank port)
    + times p (s.sources rank switch)

mentions-infos_by_dst_rank :
    (p : ℕ) (s : Channels) (rank : ℕ)
    → mentions p (infos_by_dst_rank s rank) ≡ source_times p s rank
unfolding infos_by_dst_rank
mentions-infos_by_dst_rank p s rank =
    let a = info_of_source ChannelType.none (s.sources rank ChannelType.none) in
    let b = info_of_source memory (s.sources rank memory) in
    let c = info_of_source port (s.sources rank port) in
    let d = info_of_source switch (s.sources rank switch) in
    mentions-four p a b c d
    ∙ rw
        (
          mentions-source p ChannelType.none (s.sources rank ChannelType.none),
          mentions-source p memory (s.sources rank memory),
          mentions-source p port (s.sources rank port),
          mentions-source p switch (s.sources rank switch),
        )
        refl

-- The connected peers of a rank are in increasing order, without repetition, and they are the ranks
-- that one of its channels connects to or that have a channel connected to it.
pub get_connected_peers_lem :
    (s : Channels) (rank p : ℕ)
    → IsSorted (get_connected_peers s rank)
      × ((0 < times p (get_connected_peers s rank))
          ↔ (0 < source_times p s rank + mentions p (s.infos_of rank)))
unfolding get_connected_peers
get_connected_peers_lem s rank p =
    let own = times-insert_infos p (s.infos_of rank) [] in
    let all = times-insert_infos p (infos_by_dst_rank s rank) (insert_infos (s.infos_of rank) []) in
    let n = mentions-infos_by_dst_rank p s rank in
    (
      insert_infos-IsSorted (infos_by_dst_rank s rank) (insert_infos (s.infos_of rank) [])
          (insert_infos-IsSorted (s.infos_of rank) [] tt),
      ground arith,
    )
