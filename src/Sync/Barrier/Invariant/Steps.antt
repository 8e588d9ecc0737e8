-- ===== src/Sync/Barrier/Invariant/Steps.antt =====
-- `DeviceSyncer` of include/mscclpp/concurrency_device.hpp: each step keeps what holds between steps.
use mscclpp.Base.{
  ℕ, ◌+◌, ◌%◌, ◌^◌, ◌<◌, ◌≡◌, refl, sym, ap, ◌∙◌, ◌≢◌, lt→ltb, inl, inr, Bool, true, false, ◌||◌,
  ◌&&◌, ltb, ◌==◌, update, all_update, u32, tally, tally-update, arith, Bool-cases, ==_iff,
  tally-full, tally-le,
}
use mscclpp.Sync.Barrier.{
  Phase, outside, indexed, zeroed, polling, passed, Block, Syncer, num_counters, to_phase, enter,
  reset, arrive, poll, leave, arrived,
}
use mscclpp.Sync.Barrier.Invariant.{
  Counted, Indexed, Inv, Local, closed_update, false_ne_true, none_ahead, quiet-Counted, recounted,
  reset_to_bound, same_tally, target,
}

pub enter-Inv :
    (n r i : ℕ) (s : Syncer)
    → 1 < n
    → i < n
    → (s.blocks i).phase ≡ outside
    → Inv n r s
    → Inv n r (enter n s i)
unfolding enter
enter-Inv n r i s hn hi e v =
    let many : (n == 1) ≡ false = ground arith in
    let l = v.each i hi in
    let here : s.current_count_idx ≡ (s.blocks i).rounds % 3 = rw e at l.index in
    let c = u32 (s.current_count_idx + 1) % num_counters in
    rw many record {
      each =
          all_update (λ j b. j < n → Local r s.current_count_idx b) s.blocks i _
            (λ _. record {
              low = l.low;
              high = l.high;
              index = omega (arith, here);
              early = false_ne_true;
            })
            (λ j ne h. v.each j h);
      counted =
          quiet-Counted n r i s (to_phase s i (indexed c))
            (record { rounds = (s.blocks i).rounds; phase = indexed c }) hi (λ k. rw e refl)
            (rw e refl) refl refl v.counted;
      closed =
          closed_update n r i s.blocks (record { rounds = (s.blocks i).rounds; phase = indexed c })
            (λ h. rw e at h) (λ far. v.closed i hi (rw e far)) v.closed;
    }

pub reset-Inv :
    (n r i c : ℕ) (s : Syncer)
    → i < n
    → (s.blocks i).phase ≡ indexed c
    → Inv n r s
    → Inv n r (reset s i c)
unfolding reset
reset-Inv n r i c s hi e v =
    let l = v.each i hi in
    let here : c ≡ target (s.blocks i).rounds = rw e at l.index in
    let new : Block = record { rounds = (s.blocks i).rounds; phase = zeroed c } in
    record {
      each =
          all_update (λ j b. j < n → Local r s.current_count_idx b) s.blocks i new
            (λ _. record { low = l.low; high = l.high; index = here; early = false_ne_true })
            (λ j ne h. v.each j h);
      counted =
          recounted n r i ((s.blocks i).rounds + 1) 0 s (reset s i c) new hi (omega (arith, l.low))
            (omega (arith, l.high)) (reset_to_bound n r s v) (omega (arith, l.high))
            (λ k ne. rw e refl) (λ k ne h. rw e omega arith)
            (ap (λ x. update s.count x 0) (omega (arith, here))) refl
            (sym (
              same_tally n ((s.blocks i).rounds + 1) i s.blocks new hi (rw e refl)
              ∙ none_ahead n r i s hi (rw e refl) v))
            v.counted;
      closed =
          closed_update n r i s.blocks new (λ h. rw e at h) (λ far. v.closed i hi (rw e far))
            v.closed;
    }

other_call : (k q : ℕ) → k ≢ q → (ltb k q || ((q == k) && true)) ≡ (ltb k q || ((q == k) && false))
other_call k q ne = ground arith

next_call : (k q : ℕ) → (ltb k (q + 1) || ((q + 1 == k) && false)) ≡ (ltb k q || ((q == k) && true))
next_call k q = ground arith

not_arrived : (q : ℕ) → (ltb q q || ((q == q) && false)) ≡ false
not_arrived q = ground arith

has_arrived_now : (q : ℕ) → (ltb q q || ((q == q) && true)) ≡ true
has_arrived_now q = ground arith

or_true : (b : Bool) → (b || true) ≡ true
or_true true = refl
or_true false = refl

index_moved :
    (cur c k : ℕ) (p : Phase) → Indexed cur k p → (p ≡ outside → c ≡ k % 3) → Indexed c k p
index_moved cur c k outside h h' = h' refl
index_moved cur c k (indexed i) h h' = h
index_moved cur c k (zeroed i) h h' = h
index_moved cur c k (polling i) h h' = h
index_moved cur c k (passed i) h h' = h

current_moved :
    (r cur c : ℕ) (b : Block) → Local r cur b → arrived r b ≡ true → c ≡ target r → Local r c b
current_moved r cur c b l a h = record {
  low = l.low;
  high = l.high;
  index = index_moved cur c b.rounds b.phase l.index λ e. left e;
  early = l.early;
}
  where
    left : b.phase ≡ outside → c ≡ b.rounds % 3
    left e =
        let a' = rw e at a in let q : r < b.rounds = ground (arith, a') in omega (arith, l.high)

pub arrive-Inv :
    (n r i c : ℕ) (s : Syncer)
    → n < 2 ^ 32
    → i < n
    → (s.blocks i).phase ≡ zeroed c
    → Inv n r s
    → Inv n r (arrive s i c)
unfolding arrive
arrive-Inv n r i c s hn hi e v =
    let l = v.each i hi in
    let here : c ≡ target (s.blocks i).rounds = rw e at l.index in
    let new : Block = record { rounds = (s.blocks i).rounds; phase = polling c } in
    let q = (s.blocks i).rounds in
    let before : arrived q (s.blocks i) ≡ false = rw e (not_arrived q) in
    let one_more = tally-update (arrived q) s.blocks new n i hi in
    let one_more' = rw (before, has_arrived_now q) at one_more in
    let counted : s.count c ≡ tally (arrived q) s.blocks n =
      ap s.count here ∙ v.counted i hi q l.low (rw e (omega arith)) in
    let one : u32 (s.count c + 1) ≡ tally (arrived q) (update s.blocks i new) n =
      omega (arith, counted, one_more', tally-le (arrived q) (update s.blocks i new) n) in
    record {
      each =
          all_update (λ j b. j < n → Local r s.current_count_idx b) s.blocks i new
            (λ _. record { low = l.low; high = l.high; index = here; early = false_ne_true })
            (λ j ne h. v.each j h);
      counted =
          recounted n r i ((s.blocks i).rounds) (u32 (s.count c + 1)) s (arrive s i c) new hi l.low
            (omega (arith, l.high)) (reset_to_bound n r s v) (omega (arith, l.high))
            (λ k ne. rw e (other_call k (s.blocks i).rounds ne)) (λ k ne h. rw e h)
            (ap (λ x. update s.count x (u32 (s.count c + 1))) here) refl one v.counted;
      closed =
          closed_update n r i s.blocks new (λ h. let h' = rw e at h in ground (arith, h'))
            (λ far. v.closed i hi (rw e far)) v.closed;
    }

pub poll-Inv :
    (n r i c : ℕ) (s : Syncer)
    → i < n
    → (s.blocks i).phase ≡ polling c
    → (s.blocks i).rounds ≡ r
    → Inv n r s
    → Inv n r (poll n s i c)
unfolding poll
poll-Inv n r i c s hi e er v = elim (Bool-cases (s.count c == n)) [
  | inr f ↦ rw f v
  | inl t ↦
      let l = v.each i hi in
      let here : c ≡ target (s.blocks i).rounds = rw e at l.index in
      let new : Block = record { rounds = (s.blocks i).rounds; phase = passed c } in
      let counted : Counted n s r = v.counted i hi r (omega arith) (rw (e, er) omega arith) in
      let full : tally (arrived r) s.blocks n ≡ n =
        sym counted ∙ ap s.count (ap target (sym er) ∙ sym here) ∙ (==_iff (s.count c) n).0 t in
      rw t record {
        each =
            all_update (λ j b. j < n → Local r s.current_count_idx b) s.blocks i new
              (λ _. record { low = l.low; high = l.high; index = here; early = λ _. er })
              (λ j ne h. v.each j h);
        counted =
            quiet-Counted n r i s (to_phase s i (passed c)) new hi (λ k. rw e refl) (rw e refl) refl
              refl v.counted;
        closed =
            closed_update n r i s.blocks new (λ h. rw e at h)
              (λ _ k. tally-full (arrived r) s.blocks n k full) v.closed;
      }
]

pub leave-Inv :
    (n r i c : ℕ) (s : Syncer)
    → i < n
    → (s.blocks i).phase ≡ passed c
    → Inv n r s
    → Inv n r (leave s i c)
unfolding leave
leave-Inv n r i c s hi e v =
    let l = v.each i hi in
    let here : c ≡ target (s.blocks i).rounds = rw e at l.index in
    let er : (s.blocks i).rounds ≡ r = l.early (rw e refl) in
    let new : Block = record { rounds = (s.blocks i).rounds + 1; phase = outside } in
    let all = v.closed i hi (rw e (or_true (ltb r (s.blocks i).rounds))) in
    record {
      each =
          all_update (λ j b. j < n → Local r c b) s.blocks i new
            (λ _. record {
              low = omega arith;
              high = omega arith;
              index = here;
              early = false_ne_true;
            })
            (λ j ne h.
              current_moved r s.current_count_idx c (s.blocks j) (v.each j h) (all j h)
                (omega arith));
      counted =
          quiet-Counted n r i s (leave s i c) new hi (λ k. rw e (next_call k (s.blocks i).rounds))
            (rw e refl) refl refl v.counted;
      closed =
          closed_update n r i s.blocks new (λ h. rw (er, lt→ltb r (r + 1) (omega arith)) refl)
            (λ _. all) v.closed;
    }
