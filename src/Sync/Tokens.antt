-- ===== src/Sync/Tokens.antt =====
-- The semaphores between two sides, `MemoryDevice2DeviceSemaphoreDeviceHandle` and
-- `Host2DeviceSemaphoreDeviceHandle` of include/mscclpp/semaphore_device.hpp, as the side that waits
-- sees them. Threads `0` to `n - 1` wait in any order and at the same time; a call of `poll` does not
-- overlap another call. The 64-bit tokens do not wrap, and spin loops have no maximum.
pub mod Conservation
mod Tests
use mscclpp.Base.{ℕ, ◌+◌, ◌<◌, ◌≡◌, Bool, true, false, ltb, leb, if◌then◌else◌, update}

pub data Waiter : Type 0 where
  idle : Waiter
  waiting : (expected : ℕ) → Waiter  -- in the loop of `wait`

pub record Tokens : Type 0 where
  pub inbound_token : ℕ
  pub expected_inbound_token : ℕ
  pub waiters : ℕ → Waiter
  pub returned : ℕ  -- calls of `wait` that returned, and of `poll` that were true

pub init : Tokens
init = record { inbound_token = 0; expected_inbound_token = 0; waiters = λ _. idle; returned = 0 }

-- `signal` of the other side: the fetch-add of its `remoteInboundToken`
pub signal : Tokens → Tokens
signal s = record s { inbound_token = s.inbound_token + 1 }

-- `wait`: `incExpectedInbound`
pub begin_wait : Tokens → ℕ → Tokens
begin_wait s i = record s {
  expected_inbound_token = s.expected_inbound_token + 1;
  waiters = update s.waiters i (waiting (s.expected_inbound_token + 1));
}

-- One load in the loop of `wait`
pub poll_wait : Tokens → ℕ → ℕ → Tokens
poll_wait s i expected =
    if ltb s.inbound_token expected
    then s
    else record s { waiters = update s.waiters i idle; returned = s.returned + 1 }

-- `poll`
pub poll : Tokens → Bool × Tokens
poll s =
    if ltb s.expected_inbound_token s.inbound_token
    then (
      true,
      record s { expected_inbound_token = s.expected_inbound_token + 1; returned = s.returned + 1 },
    )
    else (false, s)

pub data Step (n : ℕ) (s : Tokens) : Tokens → Type 0 where
  signals : Step n s (signal s)
  begins : (i : ℕ) → i < n → s.waiters i ≡ idle → Step n s (begin_wait s i)
  polls_wait : (i e : ℕ) → i < n → s.waiters i ≡ waiting e → Step n s (poll_wait s i e)
  polls : Step n s (poll s).1

pub data Reach (n : ℕ) : Tokens → Type 0 where
  start : Reach n init
  later : {s t : Tokens} → Reach n s → Step n s t → Reach n t

-- Whether a thread waits for one of the first `m` signals.
abbrev pub waits_upto : ℕ → Waiter → Bool
waits_upto m idle = false
waits_upto m (waiting e) = leb e m
