-- ===== src/Sync/Semaphore/Safety.antt =====
-- `DeviceSemaphore` of include/mscclpp/concurrency_device.hpp: how many threads hold it. The thread that
-- last took the value from v to v - 1, where v is not positive, is in its loop as long as the value is
-- below v.
use mscclpp.Base.{
  ℕ, zero, suc, ◌+◌, ◌-◌, ◌^◌, ◌≤◌, ◌<◌, ◌≡◌, refl, ◌≢◌, inl, inr, Bool, false, ltb, leb, update,
  update_self, update_ne, u32, tally, tally-update, tally-eq-zero, tally-lt, bit, arith, Bool-cases,
  tally-disjoint, tally_mono, ltb→lt, lt→ltb, dec_le, sym, ap, ◌∙◌, ℕ_discrete, leb→le,
}
use mscclpp.Sync.Semaphore.{
  Thread, idle, waiting, holding, Semaphore, int_zero, set, acquire, poll, release, acquires, polls,
  releases, Steps, here, later, holds, waits,
}

pub record Inv (value n : ℕ) (s : Semaphore) : Type 0 where
  balance : s.semaphore + tally holds s.threads n + tally waits s.threads n ≡ int_zero + value
  crossed : (v : ℕ) → s.semaphore < v → v ≤ int_zero → (i : ℕ) × (i < n) × (s.threads i ≡ waiting v)

set-Inv : (value n : ℕ) → value < 2 ^ 31 → Inv value n (set value)
unfolding set
set-Inv value n h = record {
  balance = omega (
    arith,
    tally-eq-zero holds (λ _. idle) n (λ i hi. refl),
    tally-eq-zero waits (λ _. idle) n (λ i hi. refl),
  );
  crossed = λ v low high. absurd (omega arith);
}

disjoint : (t : Thread) → bit (holds t) + bit (waits t) ≤ 1
disjoint idle = omega arith
disjoint (waiting v) = omega arith
disjoint holding = omega arith

-- A new state of thread `i` changes the two tallies.
moved :
    (s : Semaphore) (n i : ℕ) (old new : Thread)
    → i < n
    → s.threads i ≡ old
    → (tally holds (update s.threads i new) n + bit (holds old)
        ≡ tally holds s.threads n + bit (holds new))
      × (tally waits (update s.threads i new) n + bit (waits old)
          ≡ tally waits s.threads n + bit (waits new))
      × (tally holds (update s.threads i new) n + tally waits (update s.threads i new) n ≤ n)
moved s n i old new hi e = (
  rw (sym e) (tally-update holds s.threads new n i hi),
  rw (sym e) (tally-update waits s.threads new n i hi),
  tally-disjoint holds waits (update s.threads i new) n disjoint,
)

-- A thread in its loop is still there when another thread, or one in another loop, moves.
still :
    (s : Semaphore) (i : ℕ) (old new : Thread) (n v : ℕ)
    → s.threads i ≡ old
    → old ≢ waiting v
    → (k : ℕ) × (k < n) × (s.threads k ≡ waiting v)
    → (k : ℕ) × (k < n) × (update s.threads i new k ≡ waiting v)
still s i old new n v e ne (k, hk, w) =
    (k, hk, rw (update_ne s.threads i k new (λ same. ne (sym e ∙ ap s.threads same ∙ w))) w)

-- The subtraction of `acquire` does not wrap: there are fewer threads than values below 0.
pub acquire_lowers :
    (value n i : ℕ) (s : Semaphore)
    → value < 2 ^ 31
    → n ≤ 2 ^ 31
    → i < n
    → s.threads i ≡ idle
    → Inv value n s
    → u32 (s.semaphore + 2 ^ 32 - 1) + 1 ≡ s.semaphore
acquire_lowers value n i s hv hn hi e v =
    let (mh, mw, small) = moved s n i idle holding hi e in omega (arith, v.balance, mh, mw, small)

acquire-Inv :
    (value n i : ℕ) (s : Semaphore)
    → value < 2 ^ 31
    → n ≤ 2 ^ 31
    → i < n
    → s.threads i ≡ idle
    → Inv value n s
    → Inv value n (acquire s i)
unfolding acquire
acquire-Inv value n i s hv hn hi e v = elim (Bool-cases (leb s.semaphore int_zero)) [
  | inl t ↦
      let (mh, mw, small) = moved s n i idle (waiting s.semaphore) hi e in
      let low = acquire_lowers value n i s hv hn hi e v in
      record {
        balance = rw t omega (arith, v.balance, low, mh, mw);
        crossed = rw t λ u above below. elim (ℕ_discrete s.semaphore u) [
          | yes same ↦ (i, hi, rw (update_self s.threads i (waiting s.semaphore)) (ap waiting same))
          | no ne ↦
              still s i idle (waiting s.semaphore) n u e (λ x. cc)
                (v.crossed u (omega (arith, low)) below)
        ];
      }
  | inr f ↦
      let (mh, mw, small) = moved s n i idle holding hi e in
      let low = acquire_lowers value n i s hv hn hi e v in
      let high = ltb→lt int_zero s.semaphore (ground arith) in
      record {
        balance = rw f omega (arith, v.balance, low, mh, mw);
        crossed = rw f λ u above below. absurd (omega (arith, low, high));
      }
]

abbrev old_val_of : Thread → ℕ
old_val_of (waiting old_val) = old_val
old_val_of _ = 0

poll-Inv :
    (value n i old_val : ℕ) (s : Semaphore)
    → i < n
    → s.threads i ≡ waiting old_val
    → Inv value n s
    → Inv value n (poll s i old_val)
unfolding poll
poll-Inv value n i old_val s hi e v = elim (Bool-cases (ltb s.semaphore old_val)) [
  | inl t ↦ rw t v
  | inr f ↦
      let (mh, mw, small) = moved s n i (waiting old_val) holding hi e in
      let geq = leb→le old_val s.semaphore (ground arith) in
      rw f record {
        balance = omega (arith, v.balance, mh, mw);
        crossed = λ u above below.
            still s i (waiting old_val) holding n u e
              (λ same. omega (arith, ap old_val_of same, geq)) (v.crossed u above below);
      }
]

release-Inv :
    (value n i : ℕ) (s : Semaphore)
    → value < 2 ^ 31
    → i < n
    → s.threads i ≡ holding
    → Inv value n s
    → Inv value n (release s i)
unfolding release
release-Inv value n i s hv hi e v =
    let (mh, mw, small) = moved s n i holding idle hi e in
    record {
      balance = omega (arith, v.balance, mh, mw);
      crossed = λ u above below.
          still s i holding idle n u e (λ x. cc)
            (v.crossed u (omega (arith, v.balance, mh, mw)) below);
    }

pub Steps-Inv :
    (value n : ℕ) (s : Semaphore)
    → value < 2 ^ 31
    → n ≤ 2 ^ 31
    → Steps n (set value) s
    → Inv value n s
Steps-Inv value n s hv hn here = set-Inv value n hv
Steps-Inv value n s hv hn (later {t} r (acquires i hi e)) =
    acquire-Inv value n i t hv hn hi e (Steps-Inv value n t hv hn r)
Steps-Inv value n s hv hn (later {t} r (polls i old_val hi e)) =
    poll-Inv value n i old_val t hi e (Steps-Inv value n t hv hn r)
Steps-Inv value n s hv hn (later {t} r (releases i hi e)) =
    release-Inv value n i t hv hi e (Steps-Inv value n t hv hn r)

-- Whether a thread waits for more than a value.
abbrev waits_above : ℕ → Thread → Bool
waits_above u (waiting v) = ltb u v
waits_above u _ = false

waits_above_mono : (u w : ℕ) → w ≤ u → (t : Thread) → bit (waits_above u t) ≤ bit (waits_above w t)
waits_above_mono u w h idle = omega arith
waits_above_mono u w h (waiting v) = ground arith
waits_above_mono u w h holding = omega arith

waits_above_le : (u : ℕ) (t : Thread) → bit (waits_above u t) ≤ bit (waits t)
waits_above_le u idle = omega arith
waits_above_le u (waiting v) = ground arith
waits_above_le u holding = omega arith

-- Each value between the semaphore's and 0 has its waiting thread.
levels :
    (value n : ℕ) (s : Semaphore) (d : ℕ)
    → Inv value n s
    → s.semaphore + d ≤ int_zero
    → d ≤ tally (waits_above (int_zero - d)) s.threads n
levels value n s zero v h = omega arith
levels value n s (suc d) v h =
    let rest = levels value n s d v (omega arith) in
    let (i, hi, w) = v.crossed (int_zero - d) (omega arith) (omega arith) in
    let more =
      tally-lt (waits_above (int_zero - d)) (waits_above (int_zero - suc d)) s.threads n i
        (waits_above_mono (int_zero - d) (int_zero - suc d) (omega arith)) hi (rw w (ground arith))
        (rw w (lt→ltb _ _ (omega arith))) in
    omega (arith, rest, more)

-- Of at most 2^31 threads that acquire and release a semaphore in any order, at most as many hold it
-- as the value it was set to says, for a value below 2^31.
pub holders_le_value :
    (value n : ℕ) (s : Semaphore)
    → value < 2 ^ 31
    → n ≤ 2 ^ 31
    → Steps n (set value) s
    → tally holds s.threads n ≤ value
holders_le_value value n s hv hn r =
    let v = Steps-Inv value n s hv hn r in
    let enough = levels value n s (int_zero - s.semaphore) v in
    let some_wait =
      tally_mono (waits_above (int_zero - (int_zero - s.semaphore))) waits s.threads n
        (waits_above_le (int_zero - (int_zero - s.semaphore))) in
    elim (dec_le s.semaphore int_zero) [
      | yes low ↦ omega (arith, v.balance, enough (omega arith), some_wait)
      | no high ↦ omega (arith, v.balance)
    ]
