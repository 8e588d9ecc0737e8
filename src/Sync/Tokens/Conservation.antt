-- ===== src/Sync/Tokens/Conservation.antt =====
-- include/mscclpp/semaphore_device.hpp: every signal lets exactly one call through.
use mscclpp.Base.{
  ℕ, ◌+◌, ◌≤◌, ◌<◌, ◌≡◌, refl, inl, inr, false, ltb, tally, tally-update, tally-eq-zero, arith,
  Bool-cases, min, le→leb, ltb→lt, lt→leb_false,
}
use mscclpp.Sync.Tokens.{
  Waiter, idle, waiting, Tokens, init, signal, begin_wait, poll_wait, poll, signals, begins,
  polls_wait, polls, Reach, start, later, waits_upto,
}

-- Of the first `m` calls, those that returned and those in their loop.
abbrev Counted : ℕ → Tokens → Type 0
Counted n s =
    (m : ℕ)
    → s.inbound_token ≤ m
    → s.returned + tally (waits_upto m) s.waiters n ≡ min s.expected_inbound_token m

Reach-Counted : (n : ℕ) (s : Tokens) → Reach n s → Counted n s
unfolding init signal begin_wait poll_wait poll
Reach-Counted n s start =
    λ m h. omega (arith, tally-eq-zero (waits_upto m) (λ _. idle) n (λ _ _. refl))
Reach-Counted n s (later {s = u} r signals) = λ m h. Reach-Counted n u r m (omega arith)
Reach-Counted n s (later {s = u} r (begins i hi e)) = λ m h.
    let old = Reach-Counted n u r m h in
    let t = tally-update (waits_upto m) u.waiters (waiting (u.expected_inbound_token + 1)) n i hi in
    let t' = rw e at t in ground (arith, old, t')
Reach-Counted n s (later {s = u} r (polls_wait i e hi w)) =
    elim (Bool-cases (ltb u.inbound_token e)) [
      | inl b ↦ rw b (Reach-Counted n u r)
      | inr b ↦ rw b λ m h.
          let old = Reach-Counted n u r m h in
          let t = tally-update (waits_upto m) u.waiters idle n i hi in
          let t' = rw (w, le→leb e m (ground arith)) at t in omega (arith, old, t')
    ]
Reach-Counted n s (later {s = u} r polls) =
    elim (Bool-cases (ltb u.expected_inbound_token u.inbound_token)) [
      | inr b ↦ rw b (Reach-Counted n u r)
      | inl b ↦ rw b λ m h.
          let old = Reach-Counted n u r m h in
          let lt = ltb→lt u.expected_inbound_token u.inbound_token b in omega (arith, old, lt)
    ]

-- The calls of `wait` that returned and of `poll` that were true are never more than the signals,
-- in any interleaving of signals, waits and polls in which a call of `poll` does not overlap
-- another call.
pub returned_le_signals : (n : ℕ) (s : Tokens) → Reach n s → s.returned ≤ s.inbound_token
returned_le_signals n s r = omega (arith, Reach-Counted n s r s.inbound_token (omega arith))

-- When no thread in `wait` can leave its loop, the calls of `wait` that returned and of `poll` that
-- were true are as many as the smaller of the signals and the calls begun.
pub no_signal_lost :
    (n : ℕ) (s : Tokens)
    → Reach n s
    → ((i e : ℕ) → i < n → s.waiters i ≡ waiting e → s.inbound_token < e)
    → s.returned ≡ min s.expected_inbound_token s.inbound_token
no_signal_lost n s r stuck =
    let none_free =
      tally-eq-zero (waits_upto s.inbound_token) s.waiters n
        (λ i hi. blocked i (s.waiters i) hi refl) in
    omega (arith, none_free, Reach-Counted n s r s.inbound_token (omega arith))
  where
    blocked : (i : ℕ) (w : Waiter) → i < n → s.waiters i ≡ w → waits_upto s.inbound_token w ≡ false
    blocked i idle hi e = refl
    blocked i (waiting t) hi e = lt→leb_false s.inbound_token t (stuck i t hi e)
