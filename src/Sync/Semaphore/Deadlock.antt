-- ===== src/Sync/Semaphore/Deadlock.antt =====
-- `DeviceSemaphore` of include/mscclpp/concurrency_device.hpp: states where every thread in `acquire`
-- waits for a value that no release can bring, since no thread holds the semaphore.
use mscclpp.Base.{
  ℕ, ◌+◌, ◌-◌, ◌^◌, ◌≤◌, ◌<◌, ◌≡◌, refl, sym, ap, ◌∙◌, ◌≢◌, false, lt→ltb, le→leb, subst, update,
  update_self, update_ne, all_update, u32, tally, tally-eq-zero, arith,
}
use mscclpp.Sync.Semaphore.{
  Thread, idle, waiting, holding, Semaphore, int_zero, set, acquire, poll, release, Step, acquires,
  polls, releases, Steps, here, later, holds,
}
use mscclpp.Sync.Semaphore.Safety.{Inv, Steps-Inv, acquire_lowers}

-- A thread that does not hold the semaphore, and waits for more than `v` if it waits.
abbrev pub Blocked : ℕ → Thread → Type 0
Blocked v idle = Unit
Blocked v (waiting u) = v < u
Blocked v holding = ⊥

record Stuck (i u : ℕ) (s : Semaphore) : Type 0 where
  low : s.semaphore ≤ int_zero
  blocked : (j : ℕ) → Blocked s.semaphore (s.threads j)
  waiting_still : s.threads i ≡ waiting u

Blocked-le : (v w : ℕ) (t : Thread) → w ≤ v → Blocked v t → Blocked w t
Blocked-le v w idle h b = b
Blocked-le v w (waiting u) h b = omega arith
Blocked-le v w holding h b = b

lowered-Blocked :
    (v w i : ℕ) (threads : ℕ → Thread)
    → w < v
    → ((j : ℕ) → i ≢ j → Blocked w (threads j))
    → (j : ℕ) → Blocked w (update threads i (waiting v) j)
lowered-Blocked v w i threads h others = all_update (λ _. Blocked w) threads i (waiting v) h others

idle_ne : (u : ℕ) → idle ≢ waiting u
idle_ne u h = cc

stuck_step :
    (value n i u : ℕ) (s t : Semaphore)
    → n ≤ 2 ^ 31
    → value < 2 ^ 31
    → Inv value n s
    → Step n s t
    → Stuck i u s
    → Stuck i u t
unfolding acquire poll release
stuck_step value n i u s t hn hv v (acquires j hj e) b =
    let below : u32 (s.semaphore + 2 ^ 32 - 1) < s.semaphore =
      omega (arith, acquire_lowers value n j s hv hn hj e v) in
    let le = le→leb s.semaphore int_zero b.low in
    rw le record {
      low = omega (arith, b.low, below);
      blocked =
          lowered-Blocked s.semaphore (u32 (s.semaphore + 2 ^ 32 - 1)) j s.threads below (λ k ne.
            Blocked-le s.semaphore (u32 (s.semaphore + 2 ^ 32 - 1)) (s.threads k) (omega arith)
              (b.blocked k));
      waiting_still =
          rw
            (update_ne s.threads j i (waiting s.semaphore)
              (λ same. idle_ne u (sym e ∙ ap s.threads same ∙ b.waiting_still)))
            (b.waiting_still);
    }
stuck_step value n i u s t hn hv v (polls j w hj e) b =
    let lt = subst (Blocked s.semaphore) e (b.blocked j) in rw (lt→ltb s.semaphore w lt) b
stuck_step value n i u s t hn hv v (releases j hj e) b =
    absurd (subst (Blocked s.semaphore) e (b.blocked j))

stuck-Steps :
    (value n i u : ℕ) (s t : Semaphore)
    → n ≤ 2 ^ 31
    → value < 2 ^ 31
    → Steps n (set value) s
    → Steps n s t
    → Stuck i u s
    → Stuck i u t × Steps n (set value) t
stuck-Steps value n i u s t hn hv r here b = (b, r)
stuck-Steps value n i u s t hn hv r (later {t = m} q st) b =
    let (b', r') = stuck-Steps value n i u s m hn hv r q b in
    (stuck_step value n i u m t hn hv (Steps-Inv value n m hv hn r') st b', later r' st)

Blocked-holds : (v : ℕ) (t : Thread) → Blocked v t → holds t ≡ false
Blocked-holds v idle b = refl
Blocked-holds v (waiting u) b = refl
Blocked-holds v holding b = absurd b

idle_again : (i : ℕ) (s : Semaphore) → (release s i).threads i ≡ idle
unfolding release
idle_again i s = update_self s.threads i idle

relocked :
    (i : ℕ) (s : Semaphore)
    → s.semaphore < int_zero
    → ((j : ℕ) → i ≢ j → Blocked s.semaphore (s.threads j))
    → Stuck i (s.semaphore + 1) (acquire (release s i) i)
unfolding acquire release
relocked i s negative others =
    let up : u32 (s.semaphore + 1) ≡ s.semaphore + 1 = omega arith in
    let down : u32 (s.semaphore + 1 + 2 ^ 32 - 1) ≡ s.semaphore = omega arith in
    let le = le→leb (s.semaphore + 1) int_zero (omega arith) in
    rw (up, le, down)
      record {
        low = omega arith;
        blocked =
            lowered-Blocked (s.semaphore + 1) s.semaphore i _ (omega arith)
              (λ j ne. rw (update_ne s.threads i j idle ne) (others j ne));
        waiting_still = update_self (update s.threads i idle) i (waiting (s.semaphore + 1));
      }

-- When one thread holds the semaphore, another waits (the value is negative), and no waiting thread
-- can go on yet, then a release of the holder that the holder itself follows with the next `acquire`
-- ends in a deadlock: whatever any thread does later, no thread holds the semaphore, and this one is
-- still in its loop.
pub relock_deadlocks :
    (value n i : ℕ) (s t : Semaphore)
    → value < 2 ^ 31
    → n ≤ 2 ^ 31
    → Steps n (set value) s
    → i < n
    → s.threads i ≡ holding
    → s.semaphore < int_zero
    → ((j : ℕ) → i ≢ j → Blocked s.semaphore (s.threads j))
    → Steps n (acquire (release s i) i) t
    → (tally holds t.threads n ≡ 0) × (t.threads i ≡ waiting (s.semaphore + 1))
relock_deadlocks value n i s t hv hn r hi e negative others q =
    let relock = later (later r (releases i hi e)) (acquires i hi (idle_again i s)) in
    let (b, _) =
      stuck-Steps value n i (s.semaphore + 1) _ t hn hv relock q (relocked i s negative others) in
    (
      tally-eq-zero holds t.threads n
          (λ j hj. Blocked-holds t.semaphore (t.threads j) (b.blocked j)),
      b.waiting_still,
    )
