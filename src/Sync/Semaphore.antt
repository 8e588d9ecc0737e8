-- ===== src/Sync/Semaphore.antt =====
-- `DeviceSemaphore` of include/mscclpp/concurrency_device.hpp, used by the threads `0` to `n - 1`. One
-- step is one atomic access; steps interleave in any order. An `int` v is kept as v + 2^31: additions
-- wrap modulo 2^32 and comparisons are those of ℕ. A spin loop has no maximum (`maxSpinCount = -1`).
pub mod Safety
pub mod Deadlock
mod Tests
use mscclpp.Base.{
  ℕ, ◌+◌, ◌-◌, ◌^◌, ◌<◌, ◌≡◌, Bool, true, false, ltb, leb, if◌then◌else◌, update, u32,
}

pub data Thread : Type 0 where
  idle : Thread
  waiting : (old_val : ℕ) → Thread  -- in the loop of `acquire`
  holding : Thread

pub record Semaphore : Type 0 where
  pub semaphore : ℕ
  pub threads : ℕ → Thread

-- The `int` 0.
abbrev pub int_zero : ℕ
int_zero = 2 ^ 31

-- `set`, or the constructor, before the threads start.
pub set : ℕ → Semaphore
set value = record { semaphore = u32 (int_zero + value); threads = λ _. idle }

-- The fetch-add of `acquire`, and its test.
pub acquire : Semaphore → ℕ → Semaphore
acquire s i = record {
  semaphore = u32 (s.semaphore + 2 ^ 32 - 1);
  threads = update s.threads i (if leb s.semaphore int_zero then waiting s.semaphore else holding);
}

-- One load in the loop of `acquire`.
pub poll : Semaphore → ℕ → ℕ → Semaphore
poll s i old_val =
    if ltb s.semaphore old_val then s else record s { threads = update s.threads i holding }

pub release : Semaphore → ℕ → Semaphore
release s i = record { semaphore = u32 (s.semaphore + 1); threads = update s.threads i idle }

pub data Step (n : ℕ) (s : Semaphore) : Semaphore → Type 0 where
  acquires : (i : ℕ) → i < n → s.threads i ≡ idle → Step n s (acquire s i)
  polls : (i old_val : ℕ) → i < n → s.threads i ≡ waiting old_val → Step n s (poll s i old_val)
  releases : (i : ℕ) → i < n → s.threads i ≡ holding → Step n s (release s i)

-- What the steps of `n` threads lead to.
pub data Steps (n : ℕ) (s : Semaphore) : Semaphore → Type 0 where
  here : Steps n s s
  later : {t u : Semaphore} → Steps n s t → Step n t u → Steps n s u

abbrev pub holds : Thread → Bool
holds holding = true
holds _ = false

abbrev pub waits : Thread → Bool
waits (waiting old_val) = true
waits _ = false
