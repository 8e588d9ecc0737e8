-- ===== src/Sync/Barrier/Rounds.antt =====
-- `DeviceSyncer` of include/mscclpp/concurrency_device.hpp: what a return of `sync` promises, and that
-- blocks which have all arrived get through.
use mscclpp.Base.{
  ℕ, ◌+◌, ◌^◌, ◌<◌, ◌≡◌, refl, sym, ap, ◌∙◌, inl, inr, true, ◌==◌, update_self, tally,
  tally-eq-zero, arith, Bool-cases, ℕ_discrete, subst, dec_lt, ==_iff, tally-full, tally-all,
  lt→ltb,
}
use mscclpp.Sync.Barrier.{
  outside, polling, passed, Syncer, init, poll, Step, enters, resets, arrives, polls, leaves, Reach,
  start, later, arrived,
}
use mscclpp.Sync.Barrier.Invariant.{target, Inv, arrived_rounds}
use mscclpp.Sync.Barrier.Invariant.Steps.{enter-Inv, reset-Inv, arrive-Inv, poll-Inv, leave-Inv}

init-Inv : (n : ℕ) → Inv n 0 init
unfolding init
init-Inv n = record {
  each = λ j hj. record { low = omega arith; high = omega arith; index = refl; early = λ _. refl };
  counted = λ j hj k r h. sym (
      tally-eq-zero (arrived k) (λ _. record { rounds = 0; phase = outside }) n
        (λ _ _. ground arith));
  closed = λ j hj h. absurd cc;
}

-- When all blocks have arrived in the next call, that call is the first one under way.
next_round :
    (n r : ℕ) (s : Syncer)
    → Inv n r s
    → ((j : ℕ) → j < n → arrived (r + 1) (s.blocks j) ≡ true)
    → Inv n (r + 1) s
next_round n r s v all = record {
  each = λ j hj.
      let l = v.each j hj in
      let low = arrived_rounds (r + 1) (s.blocks j) (all j hj) in
      record {
        low = low;
        high = omega (arith, l.high);
        index = l.index;
        early = λ p. let e = l.early p in absurd (omega arith);
      };
  counted = λ j hj k hr. v.counted j hj k (omega arith);
  closed = λ j hj _. all;
}

-- The counter of a block's own call, once it has arrived.
own_count :
    (n r i c : ℕ) (s : Syncer)
    → i < n
    → (s.blocks i).phase ≡ polling c
    → Inv n r s
    → s.count c ≡ tally (arrived (s.blocks i).rounds) s.blocks n
own_count n r i c s hi e v =
    let l = v.each i hi in
    let here : c ≡ target (s.blocks i).rounds = rw e at l.index in
    ap s.count here ∙ v.counted i hi (s.blocks i).rounds l.low (rw e (omega arith))

polled-Inv :
    (n r i c : ℕ) (s : Syncer)
    → i < n
    → (s.blocks i).phase ≡ polling c
    → Inv n r s
    → (q : ℕ) × Inv n q (poll n s i c)
unfolding poll
polled-Inv n r i c s hi e v = elim (ℕ_discrete (s.blocks i).rounds r) [
  | yes same ↦ (r, poll-Inv n r i c s hi e same v)
  | no ne ↦ elim (Bool-cases (s.count c == n)) [
    | inr f ↦ (r, rw f v)
    | inl t ↦
        let l = v.each i hi in
        let q : (s.blocks i).rounds ≡ r + 1 = omega (arith, l.low, l.high) in
        let count = own_count n r i c s hi e v in
        let full : tally (arrived (r + 1)) s.blocks n ≡ n =
          ap (λ k. tally (arrived k) s.blocks n) (sym q) ∙ sym count ∙ (==_iff (s.count c) n).0 t in
        (
          r + 1,
          poll-Inv n (r + 1) i c s hi e q
              (next_round n r s v (λ j hj. tally-full (arrived (r + 1)) s.blocks n j full hj)),
        )
  ]
]

Step-Inv :
    (n r : ℕ) (s t : Syncer) → 1 < n → n < 2 ^ 32 → Step n s t → Inv n r s → (q : ℕ) × Inv n q t
Step-Inv n r s t hn hw (enters i hi e) v = (r, enter-Inv n r i s hn hi e v)
Step-Inv n r s t hn hw (resets i c hi e) v = (r, reset-Inv n r i c s hi e v)
Step-Inv n r s t hn hw (arrives i c hi e) v = (r, arrive-Inv n r i c s hw hi e v)
Step-Inv n r s t hn hw (polls i c hi e) v = polled-Inv n r i c s hi e v
Step-Inv n r s t hn hw (leaves i c hi e) v = (r, leave-Inv n r i c s hi e v)

Reach-Inv : (n : ℕ) (s : Syncer) → 1 < n → n < 2 ^ 32 → Reach n s → (r : ℕ) × Inv n r s
Reach-Inv n s hn hw start = (0, init-Inv n)
Reach-Inv n s hn hw (later {s = m} r st) =
    let (q, v) = Reach-Inv n m hn hw r in Step-Inv n q m s hn hw st v

-- Of 2 to 2^32 - 1 blocks, none returns from its call number `k` of `sync` before every block has
-- arrived in its own call number `k`, whatever the interleaving.
pub leaves_after_all :
    (n i j k : ℕ) (s : Syncer)
    → 1 < n
    → n < 2 ^ 32
    → Reach n s
    → i < n
    → j < n
    → k < (s.blocks i).rounds
    → arrived k (s.blocks j) ≡ true
leaves_after_all n i j k s hn hw reach hi hj hk =
    let (r, v) = Reach-Inv n s hn hw reach in
    elim (dec_lt k r) [
      | yes old ↦ rw (lt→ltb k (s.blocks j).rounds (omega (arith, (v.each j hj).low))) refl
      | no new ↦
          let l = v.each i hi in
          let e : r ≡ k = omega (arith, l.high) in
          subst (λ k. arrived k (s.blocks j) ≡ true) e
            (v.closed i hi (rw (lt→ltb r (s.blocks i).rounds (omega (arith, l.high))) refl) j hj)
    ]

-- When all blocks have arrived in the call of a block that is in its loop, and until it has left the
-- loop, its next load finds the number of blocks in the counter, and it leaves the loop.
pub polling_passes :
    (n i c : ℕ) (s : Syncer)
    → 1 < n
    → n < 2 ^ 32
    → Reach n s
    → i < n
    → (s.blocks i).phase ≡ polling c
    → ((j : ℕ) → j < n → arrived (s.blocks i).rounds (s.blocks j) ≡ true)
    → (s.count c ≡ n) × (((poll n s i c).blocks i).phase ≡ passed c)
unfolding poll
polling_passes n i c s hn hw reach hi e all =
    let (r, v) = Reach-Inv n s hn hw reach in
    let full : s.count c ≡ n =
      own_count n r i c s hi e v ∙ tally-all (arrived (s.blocks i).rounds) s.blocks n all in
    (
      full,
      rw ((==_iff (s.count c) n).1 full) (
          rw (update_self s.blocks i (record { rounds = (s.blocks i).rounds; phase = passed c }))
            refl),
    )
