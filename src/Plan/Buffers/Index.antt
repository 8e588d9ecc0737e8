-- ===== src/Plan/Buffers/Index.antt =====
-- src/core/executor/execution_plan.cc: the index that `parseRemoteBuffer` gives to a buffer.
use mscclpp.Base.{
  ℕ, zero, suc, ◌≡◌, refl, sym, ap, ◌∙◌, subst, ◌≢◌, ◌⊎◌, inl, inr, true, some, List, [], ◌∷◌, ◌++◌,
  length, get_elem?, get_elem?-append_last, length-append, ok, >>=-eq-ok, if◌then◌else◌, Bool-cases,
  arith,
}
use mscclpp.Plan.Types.{ChannelType, convert_to_buffer_type}
use mscclpp.Plan.Buffers.{
  RemoteBuffer, BufferInfo, Buffers, parse_access, push, parse_buffer, parse_remote_buffer,
  no_buffers, accesses, distinct, accessed_by,
}
use mscclpp.Plan.Buffers.Access.{Accessed, buffers-inj, parse_access-Accessed, parse_access-infos}

accessed_by-append :
    (c : ChannelType) (bs : List BufferInfo) (b : BufferInfo)
    → accessed_by c (bs ++ (b ∷ []))
      ≡ accessed_by c bs ++ (if accesses c b.channels then b ∷ [] else [])
accessed_by-append c [] b = refl
accessed_by-append c (x ∷ bs) b = elim (Bool-cases (accesses c x.channels)) [
  | inl t ↦ rw (t, accessed_by-append c bs b) refl
  | inr t ↦ rw (t, accessed_by-append c bs b) refl
]

-- The counts are the numbers of buffers accessed, and each index is the place among them.
record Inv (b : Buffers) : Type 0 where
  count : (c : ChannelType) → b.count c ≡ length (accessed_by c b.infos)
  index :
      (c : ChannelType) (i : ℕ) (x : BufferInfo)
      → get_elem? b.infos i ≡ some x
      → accesses c x.channels ≡ true
      → get_elem? (accessed_by c b.infos) (b.index i c) ≡ some x

get_elem?-append_some :
    {A : Type 0} (xs ys : List A) (i : ℕ) (a : A)
    → get_elem? xs i ≡ some a
    → get_elem? (xs ++ ys) i ≡ some a
get_elem?-append_some [] ys i a h = absurd cc
get_elem?-append_some (x ∷ xs) ys zero a h = h
get_elem?-append_some (x ∷ xs) ys (suc i) a h = get_elem?-append_some xs ys i a h

-- What stands in a list with one element more is an old element, or the new one at the end.
get_elem?-append_one :
    {A : Type 0} (xs : List A) (y : A) (i : ℕ) (a : A)
    → get_elem? (xs ++ (y ∷ [])) i ≡ some a
    → (get_elem? xs i ≡ some a) × (length xs ≢ i) ⊎ (length xs ≡ i) × (y ≡ a)
get_elem?-append_one [] y zero a h = inr (refl, cc)
get_elem?-append_one [] y (suc i) a h = absurd cc
get_elem?-append_one (x ∷ xs) y zero a h = inl (h, λ e. omega arith)
get_elem?-append_one (x ∷ xs) y (suc i) a h = elim (get_elem?-append_one xs y i a h) [
  | inl (old, ne) ↦ inl (old, λ e. ne (omega arith))
  | inr (e, same) ↦ inr (omega arith, same)
]

push-Inv :
    (b t : Buffers) (info : BufferInfo)
    → Accessed (length b.infos) b t info.channels
    → Inv b
    → Inv (push info t)
unfolding push
push-Inv b t info a v = rw a.infos record {
  count = λ c.
      let n =
        length-append (accessed_by c b.infos)
          (if accesses c info.channels then info ∷ [] else []) in
      rw (a.count c, accessed_by-append c b.infos info)
        (elim (Bool-cases (accesses c info.channels)) [
          | inl s ↦ let n' = rw s at n in rw s omega (arith, n', v.count c)
          | inr s ↦ let n' = rw s at n in rw s omega (arith, n', v.count c)
        ]);
  index = λ c i x h acc. elim (get_elem?-append_one b.infos info i x h) [
    | inl (old, ne) ↦
        rw (a.others i c ne, accessed_by-append c b.infos info)
          (get_elem?-append_some (accessed_by c b.infos) _ (b.index i c) x (v.index c i x old acc))
    | inr (e, same) ↦
        let acc' : accesses c info.channels ≡ true =
          subst (λ y. accesses c y.channels ≡ true) (sym same) acc in
        let own = rw acc' at (a.own c) in
        let place : t.index i c ≡ length (accessed_by c b.infos) =
          ap (λ k. t.index k c) (sym e) ∙ own ∙ v.count c in
        rw (accessed_by-append c b.infos info, acc', place)
          (get_elem?-append_last (accessed_by c b.infos) info ∙ ap some same)
  ];
}

-- Each buffer names a type of channel at most once.
abbrev pub Distinct : List BufferInfo → Type 0
Distinct [] = Unit
Distinct (b ∷ bs) = (distinct b.channels ≡ true) × Distinct bs

distinct_last :
    (bs : List BufferInfo) (b : BufferInfo) → Distinct (bs ++ (b ∷ [])) → distinct b.channels ≡ true
distinct_last [] b (d, _) = d
distinct_last (x ∷ bs) b (_, d) = distinct_last bs b d

Distinct-front : (bs cs : List BufferInfo) → Distinct (bs ++ cs) → Distinct bs
Distinct-front [] cs d = tt
Distinct-front (x ∷ bs) cs (h, d) = (h, Distinct-front bs cs d)

-- What one iteration of the outer loop appends.
parse_buffer-Inv :
    (gpu_rank : ℕ) (r : RemoteBuffer) (b t : Buffers)
    → parse_buffer gpu_rank r b ≡ ok t
    → (info : BufferInfo) × (t.infos ≡ b.infos ++ (info ∷ []))
      × (distinct info.channels ≡ true → Inv b → Inv t)
unfolding parse_buffer push
parse_buffer-Inv gpu_rank r b t h =
    let (type, _, h1) = >>=-eq-ok (convert_to_buffer_type r.type) _ h in
    let ((u, cs), e, h2) =
      >>=-eq-ok (parse_access (length b.infos) r.access_channel_types b) _ h1 in
    let info : BufferInfo = record {
      ori_rank = r.rank;
      access_rank = gpu_rank;
      buffer_type = type;
      channels = cs;
    } in
    let same : push info u ≡ t = buffers-inj (push info u) t h2 in
    (
      info,
      sym (ap (λ x. x.infos) same)
          ∙ ap (λ x. x ++ (info ∷ []))
              (parse_access-infos (length b.infos) r.access_channel_types b u cs e),
      λ d v. subst Inv same (
          push-Inv b u info
            (parse_access-Accessed (length b.infos) r.access_channel_types b u cs e d) v),
    )

-- The buffers before a loop are among those after it.
parse_remote_buffer-Distinct :
    (gpu_rank : ℕ) (rs : List RemoteBuffer) (b t : Buffers)
    → parse_remote_buffer gpu_rank rs b ≡ ok t
    → Distinct t.infos
    → Distinct b.infos
unfolding parse_remote_buffer
parse_remote_buffer-Distinct gpu_rank [] b t h d =
    subst (λ x. Distinct x.infos) (sym (buffers-inj b t h)) d
parse_remote_buffer-Distinct gpu_rank (r ∷ rs) b t h d =
    let (b', e, h') = >>=-eq-ok (parse_buffer gpu_rank r b) _ h in
    let (info, infos, _) = parse_buffer-Inv gpu_rank r b b' e in
    Distinct-front b.infos (info ∷ [])
      (subst Distinct infos (parse_remote_buffer-Distinct gpu_rank rs b' t h' d))

parse_remote_buffer-Inv :
    (gpu_rank : ℕ) (rs : List RemoteBuffer) (b t : Buffers)
    → parse_remote_buffer gpu_rank rs b ≡ ok t
    → Distinct t.infos
    → Inv b
    → Inv t
unfolding parse_remote_buffer
parse_remote_buffer-Inv gpu_rank [] b t h d v = subst Inv (buffers-inj b t h) v
parse_remote_buffer-Inv gpu_rank (r ∷ rs) b t h d v =
    let (b', e, h') = >>=-eq-ok (parse_buffer gpu_rank r b) _ h in
    let (info, infos, keeps) = parse_buffer-Inv gpu_rank r b b' e in
    let d' = subst Distinct infos (parse_remote_buffer-Distinct gpu_rank rs b' t h' d) in
    parse_remote_buffer-Inv gpu_rank rs b' t h' d (keeps (distinct_last b.infos info d') v)

no_buffers-Inv : (sent : ℕ → List BufferInfo) → Inv (no_buffers sent)
unfolding no_buffers
no_buffers-Inv sent = record { count = λ c. refl; index = λ c i x h. absurd cc }

-- Where no remote buffer of a GPU names a type of channel twice, the index that `parseRemoteBuffer`
-- gives to a buffer for a type of channel is the place of that buffer among the buffers accessed by
-- that type, in their order.
pub index_is_place :
    (gpu_rank : ℕ) (rs : List RemoteBuffer) (sent : ℕ → List BufferInfo) (t : Buffers)
    (c : ChannelType) (id : ℕ) (info : BufferInfo)
    → parse_remote_buffer gpu_rank rs (no_buffers sent) ≡ ok t
    → Distinct t.infos
    → get_elem? t.infos id ≡ some info
    → accesses c info.channels ≡ true
    → get_elem? (accessed_by c t.infos) (t.index id c) ≡ some info
index_is_place gpu_rank rs sent t c id info h d e a =
    (parse_remote_buffer-Inv gpu_rank rs (no_buffers sent) t h d (no_buffers-Inv sent)).index c id
      info e a
