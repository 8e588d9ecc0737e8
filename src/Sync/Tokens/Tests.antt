-- ===== src/Sync/Tokens/Tests.antt =====
-- Two threads wait and one signal came.
use mscclpp.Base.{ℕ, ◌<◌, ◌≤◌, ◌≡◌, refl, arith, min, ℕ_discrete, zero, suc}
use mscclpp.Sync.Tokens.{
  waiting, Tokens, init, signal, begin_wait, poll_wait, signals, begins, polls_wait, Reach, start,
  later,
}
use mscclpp.Sync.Tokens.Conservation.{returned_le_signals, no_signal_lost}

abbrev passed : Tokens
passed = poll_wait (signal (begin_wait (begin_wait init 0) 1)) 0 1

passed-Reach : Reach 2 passed
unfolding init signal begin_wait poll_wait ℕ_discrete
passed-Reach =
    later
      (later (later (later start (begins 0 (omega arith) refl)) (begins 1 (omega arith) refl))
        signals)
      (polls_wait 0 1 (omega arith) refl)

returned_le_signals_example : passed.returned ≤ passed.inbound_token
returned_le_signals_example = returned_le_signals 2 passed passed-Reach

stuck : (i e : ℕ) → i < 2 → passed.waiters i ≡ waiting e → passed.inbound_token < e
unfolding init signal begin_wait poll_wait ℕ_discrete
stuck zero e h w = absurd cc
stuck (suc zero) e h w = let same : 2 ≡ e = cc in omega arith
stuck (suc (suc i)) e h w = absurd (omega arith)

no_signal_lost_example : passed.returned ≡ min passed.expected_inbound_token passed.inbound_token
no_signal_lost_example = no_signal_lost 2 passed passed-Reach stuck
