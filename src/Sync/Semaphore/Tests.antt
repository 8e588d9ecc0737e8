-- ===== src/Sync/Semaphore/Tests.antt =====
-- A semaphore of one place and two threads.
use mscclpp.Base.{ℕ, ◌^◌, ◌≤◌, ◌≡◌, ◌≢◌, refl, tally, arith, ℕ_discrete}
use mscclpp.Sync.Semaphore.{
  waiting, Semaphore, set, acquire, release, acquires, Steps, here, later, holds,
}
use mscclpp.Sync.Semaphore.Safety.{holders_le_value}
use mscclpp.Sync.Semaphore.Deadlock.{Blocked, relock_deadlocks}

abbrev both : Semaphore
both = acquire (acquire (set 1) 0) 1

both_reached : Steps 2 (set 1) both
unfolding set acquire ℕ_discrete
both_reached = later (later here (acquires 0 (omega arith) refl)) (acquires 1 (omega arith) refl)

holders_le_value_example : tally holds both.threads 2 ≤ 1
holders_le_value_example = holders_le_value 1 2 both (omega arith) (omega arith) both_reached

others : (j : ℕ) → 0 ≢ j → Blocked both.semaphore (both.threads j)
unfolding set acquire ℕ_discrete
others j ne = ground arith

-- The second thread waits, and the first releases the semaphore and takes it again.
abbrev relocked : Semaphore
relocked = acquire (release both 0) 0

relock_deadlocks_example :
    (tally holds relocked.threads 2 ≡ 0) × (relocked.threads 0 ≡ waiting (2 ^ 31))
unfolding set acquire ℕ_discrete
relock_deadlocks_example =
    relock_deadlocks 1 2 0 both relocked (omega arith) (omega arith) both_reached (omega arith) refl
      (omega arith) others here
