-- ===== src/Plan/Channels/Counts.antt =====
-- src/core/executor/execution_plan.cc: the maps of `setupChannels` agree with the channels of the ranks.
use mscclpp.Base.{
  ℕ, ◌+◌, ◌≡◌, ◌≢◌, refl, ap, subst, ◌∙◌, inl, inr, false, Bool-cases, List, [], ◌∷◌, ◌++◌, ok,
  >>=-eq-ok, ok-inj, ◌==◌, ==_self, if◌then◌else◌, update_ne, all_update, All, bit, arith,
}
use mscclpp.Plan.Types.{ChannelType, convert_to_channel_type, convert_to_buffer_type}
use mscclpp.Plan.Buffers.{same_channel}
use mscclpp.Plan.Channels.{
  ChannelEntry, NvlsInfo, ChannelInfo, Parsed, is_switch, add_groups, connect_peer, connect_peers,
  add_nvls, add_channel, parse_channel, parse_channels, Gpu, Channels, no_channels, from_channels,
  with_gpu, setup_channels,
}

-- How often a rank stands in a list
abbrev pub times : ℕ → List ℕ → ℕ
times r [] = 0
times r (x ∷ xs) = bit (x == r) + times r xs

-- How many connections of a type the channels of a rank have to `q`
abbrev pub connections : ChannelType → ℕ → List ChannelInfo → ℕ
connections c q [] = 0
connections c q (info ∷ infos) =
    (if same_channel info.type c then times q info.connected_peers else 0) + connections c q infos

times-append : (r : ℕ) (xs ys : List ℕ) → times r (xs ++ ys) ≡ times r xs + times r ys
times-append r [] ys = omega arith
times-append r (x ∷ xs) ys = omega (arith, times-append r xs ys)

pub connections-append :
    (c : ChannelType) (q : ℕ) (xs ys : List ChannelInfo)
    → connections c q (xs ++ ys) ≡ connections c q xs + connections c q ys
connections-append c q [] ys = omega arith
connections-append c q (x ∷ xs) ys = omega (arith, connections-append c q xs ys)

abbrev Symmetric : (ℕ → ChannelType → List ℕ) → (ℕ → ChannelType → ℕ → ℕ) → Type 0
Symmetric from count = (r : ℕ) (d : ChannelType) (q : ℕ) → count r d q ≡ times r (from q d)

connect_peer-Symmetric :
    (rank : ℕ) (c : ChannelType) (peer : ℕ) (p : Parsed)
    → Symmetric p.connected_from p.count
    → let p' = connect_peer rank c peer p in Symmetric p'.connected_from p'.count
connect_peer-Symmetric rank c peer p h r d q =
    let more = times-append r (p.connected_from q d) (rank ∷ []) in
    let same = h r d q in ground arith

-- What a rank counts of its own connections
abbrev own_count : ℕ → ℕ → ℕ → ℕ
own_count rank r n = if rank == r then n else 0

connect_peers-count :
    (rank : ℕ) (c : ChannelType) (peers : List ℕ) (p : Parsed) (r : ℕ) (d : ChannelType) (q : ℕ)
    → (connect_peers rank c peers p).count r d q
      ≡ p.count r d q + own_count rank r (if same_channel c d then times q peers else 0)
unfolding connect_peers
connect_peers-count rank c [] p r d q = ground arith
connect_peers-count rank c (peer ∷ peers) p r d q =
    let rest = connect_peers-count rank c peers (connect_peer rank c peer p) r d q in ground arith

connect_peers-Symmetric :
    (rank : ℕ) (c : ChannelType) (peers : List ℕ) (p : Parsed)
    → Symmetric p.connected_from p.count
    → let p' = connect_peers rank c peers p in Symmetric p'.connected_from p'.count
unfolding connect_peers
connect_peers-Symmetric rank c [] p h = h
connect_peers-Symmetric rank c (peer ∷ peers) p h =
    connect_peers-Symmetric rank c peers (connect_peer rank c peer p)
      (connect_peer-Symmetric rank c peer p h)

connect_peers-infos :
    (rank : ℕ) (c : ChannelType) (peers : List ℕ) (p : Parsed)
    → (connect_peers rank c peers p).channel_infos ≡ p.channel_infos
unfolding connect_peers
connect_peers-infos rank c [] p = refl
connect_peers-infos rank c (peer ∷ peers) p =
    connect_peers-infos rank c peers (connect_peer rank c peer p)

-- Channels of a rank have been added: the two maps still agree, and the count has grown with the infos.
record Grown (rank : ℕ) (p p' : Parsed) : Type 0 where
  symmetric : Symmetric p.connected_from p.count → Symmetric p'.connected_from p'.count
  counted :
      (r : ℕ) (d : ChannelType) (q : ℕ)
      → p'.count r d q + own_count rank r (connections d q p.channel_infos)
        ≡ p.count r d q + own_count rank r (connections d q p'.channel_infos)

Grown-refl : (rank : ℕ) (p : Parsed) → Grown rank p p
Grown-refl rank p = record { symmetric = λ h. h; counted = λ r d q. refl }

Grown-nvls : (rank : ℕ) (p : Parsed) (infos : List NvlsInfo) → Grown rank p (add_nvls infos p)
Grown-nvls rank p infos = record { symmetric = λ h. h; counted = λ r d q. refl }

Grown-trans :
    (rank : ℕ) (p p' p'' : Parsed) → Grown rank p p' → Grown rank p' p'' → Grown rank p p''
Grown-trans rank p p' p'' g g' = record {
  symmetric = λ h. g'.symmetric (g.symmetric h);
  counted = λ r d q. omega (arith, g.counted r d q, g'.counted r d q);
}

own_count-add :
    (rank r a b : ℕ) → own_count rank r (a + b) ≡ own_count rank r a + own_count rank r b
own_count-add rank r a b = ground arith

add_channel-Grown :
    (rank : ℕ) (c : ChannelType) (peers : List ℕ) (p : Parsed)
    → Grown rank p (add_channel rank c peers p)
add_channel-Grown rank c peers p = record {
  symmetric = connect_peers-Symmetric rank c peers p;
  counted = λ r d q.
      let n = connect_peers-count rank c peers p r d q in
      let more =
        connections-append d q p.channel_infos
          (record { type = c; connected_peers = peers } ∷ []) in
      rw
        (
          connect_peers-infos rank c peers p,
          more,
          own_count-add rank r (connections d q p.channel_infos)
              ((if same_channel c d then times q peers else 0) + 0),
        )
        ground arith;
}

parse_channel-Grown :
    (rank : ℕ) (channel : ChannelEntry) (p p' : Parsed)
    → parse_channel rank channel p ≡ ok p'
    → Grown rank p p'
unfolding parse_channel
parse_channel-Grown rank channel p p' h =
    let (c, _, h') = >>=-eq-ok (convert_to_channel_type channel.channel_type) _ h in
    elim (Bool-cases (is_switch c)) [
      | inl t ↦
          let (b, _, e) = >>=-eq-ok (convert_to_buffer_type channel.buffer_type) _ (rw t at h') in
          subst (Grown rank p) (ok-inj e) (Grown-nvls rank p (add_groups b channel.rank_groups))
      | inr f ↦
          subst (Grown rank p) (ok-inj (rw f at h'))
            (add_channel-Grown rank c channel.connected_to p)
    ]

parse_channels-Grown :
    (rank : ℕ) (channels : List ChannelEntry) (p p' : Parsed)
    → parse_channels rank channels p ≡ ok p'
    → Grown rank p p'
unfolding parse_channels
parse_channels-Grown rank [] p p' h = subst (Grown rank p) (ok-inj h) (Grown-refl rank p)
parse_channels-Grown rank (channel ∷ channels) p p' h =
    let (t, e, rest) = >>=-eq-ok (parse_channel rank channel p) _ h in
    Grown-trans rank p t p' (parse_channel-Grown rank channel p t e)
      (parse_channels-Grown rank channels t p' rest)

-- The GPUs of a list, and what is set up of others, have different ids.
abbrev pub Apart : List Gpu → Type 0
Apart [] = Unit
Apart (gpu ∷ gpus) = All (λ g. gpu.id ≢ g.id) gpus × Apart gpus

record Inv (s : Channels) : Type 0 where
  symmetric : Symmetric s.sources s.channel_count
  counted :
      (r : ℕ) (d : ChannelType) (q : ℕ) → s.channel_count r d q ≡ connections d q (s.infos_of r)

with_gpu-Inv :
    (s : Channels) (id : ℕ) (p : Parsed)
    → Inv s
    → s.infos_of id ≡ []
    → Grown id (from_channels s) p
    → Inv (with_gpu s id p)
with_gpu-Inv s id p v new g = record {
  symmetric = g.symmetric v.symmetric;
  counted = λ r d q.
      all_update (λ r infos. p.count r d q ≡ connections d q infos) s.infos_of id p.channel_infos
        (let grown = g.counted id d q in
          let old : s.channel_count id d q ≡ 0 = v.counted id d q ∙ ap (connections d q) new in
          let e = rw (==_self id) at grown in omega arith)
        (λ r ne.
          let grown = g.counted r d q in
          let old = v.counted r d q in
          let e : (id == r) ≡ false = ground arith in let grown' = rw e at grown in omega arith)
        r;
}

abbrev IsNew : Channels → List Gpu → Type 0
IsNew s gpus = All (λ g. s.infos_of g.id ≡ []) gpus

with_gpu-IsNew :
    (s : Channels) (id : ℕ) (p : Parsed) (gpus : List Gpu)
    → All (λ g. id ≢ g.id) gpus
    → IsNew s gpus
    → IsNew (with_gpu s id p) gpus
with_gpu-IsNew s id p [] ne new = tt
with_gpu-IsNew s id p (g ∷ gpus) (here, ne) (e, new) =
    (update_ne s.infos_of id g.id p.channel_infos here ∙ e, with_gpu-IsNew s id p gpus ne new)

setup_channels-Inv :
    (gpus : List Gpu) (s s' : Channels)
    → Apart gpus
    → IsNew s gpus
    → Inv s
    → setup_channels gpus s ≡ ok s'
    → Inv s'
unfolding setup_channels
setup_channels-Inv [] s s' apart new v h = subst Inv (ok-inj h) v
setup_channels-Inv (gpu ∷ gpus) s s' (ne, apart) (new, news) v h =
    let (p, e, rest) = >>=-eq-ok (parse_channels gpu.id gpu.channels (from_channels s)) _ h in
    setup_channels-Inv gpus (with_gpu s gpu.id p) s' apart (with_gpu-IsNew s gpu.id p gpus ne news)
      (with_gpu-Inv s gpu.id p v new
        (parse_channels-Grown gpu.id gpu.channels (from_channels s) p e))
      rest

no_channels-IsNew : (gpus : List Gpu) → IsNew no_channels gpus
unfolding no_channels
no_channels-IsNew [] = tt
no_channels-IsNew (gpu ∷ gpus) = (refl, no_channels-IsNew gpus)

no_channels-Inv : Inv no_channels
unfolding no_channels
no_channels-Inv = record { symmetric = λ r d q. refl; counted = λ r d q. refl }

-- When the ids of the GPUs are different, the number of connections of a type that `setupChannels`
-- counts for a rank and a peer is the number that the channels of the rank have to the peer, and the
-- number of times that the rank stands among those connected to the peer.
pub setup_channels_lem :
    (gpus : List Gpu) (s : Channels) (r : ℕ) (c : ChannelType) (q : ℕ)
    → Apart gpus
    → setup_channels gpus no_channels ≡ ok s
    → (s.channel_count r c q ≡ connections c q (s.infos_of r))
      × (s.channel_count r c q ≡ times r (s.sources q c))
setup_channels_lem gpus s r c q apart h =
    let v =
      setup_channels-Inv gpus no_channels s apart (no_channels-IsNew gpus) no_channels-Inv h in
    (v.counted r c q, v.symmetric r c q)
