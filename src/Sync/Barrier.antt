-- ===== src/Sync/Barrier.antt =====
-- `DeviceSyncer` of include/mscclpp/concurrency_device.hpp, used by the blocks `0` to `n - 1`; the
-- first thread of a block acts for it. One step is one access to the syncer; steps interleave in any
-- order. A spin loop has no maximum.
pub mod Invariant
pub mod Rounds
mod Tests
use mscclpp.Base.{
  ℕ, ◌+◌, ◌%◌, ◌<◌, ◌≡◌, Bool, true, false, ◌||◌, ◌&&◌, ltb, ◌==◌, if◌then◌else◌, update, u32,
}

-- Where a block stands: outside `sync`, or inside with its `countIdx`, before the reset of the next
-- counter, before the fetch-add, in the loop, and before the store of `currentCountIdx_`.
pub data Phase : Type 0 where
  outside : Phase
  indexed : (count_idx : ℕ) → Phase
  zeroed : (count_idx : ℕ) → Phase
  polling : (count_idx : ℕ) → Phase
  passed : (count_idx : ℕ) → Phase

pub record Block : Type 0 where
  pub rounds : ℕ  -- the calls of `sync` that returned
  pub phase : Phase

pub record Syncer : Type 0 where
  pub count : ℕ → ℕ
  pub current_count_idx : ℕ
  pub blocks : ℕ → Block

-- `NumCounters`
abbrev pub num_counters : ℕ
num_counters = 3

-- Zeroed memory.
pub init : Syncer
init = record {
  count = λ _. 0;
  current_count_idx = 0;
  blocks = λ _. record { rounds = 0; phase = outside };
}

abbrev pub to_phase : Syncer → ℕ → Phase → Syncer
to_phase s i p = record s {
  blocks = update s.blocks i (record { rounds = (s.blocks i).rounds; phase = p });
}

abbrev pub return : Syncer → ℕ → Syncer
return s i = record s {
  blocks = update s.blocks i (record { rounds = (s.blocks i).rounds + 1; phase = outside });
}

-- The start of `sync(blockNum)`: `countIdx = (currentCountIdx_ + 1) % NumCounters`.
pub enter : ℕ → Syncer → ℕ → Syncer
enter block_num s i =
    if block_num == 1
    then return s i
    else to_phase s i (indexed (u32 (s.current_count_idx + 1) % num_counters))

-- `count_[nextCountIdx] = 0`
pub reset : Syncer → ℕ → ℕ → Syncer
reset s i count_idx =
    to_phase (record s { count = update s.count (u32 (count_idx + 1) % num_counters) 0 }) i
      (zeroed count_idx)

-- The fetch-add.
pub arrive : Syncer → ℕ → ℕ → Syncer
arrive s i count_idx =
    to_phase (record s { count = update s.count count_idx (u32 (s.count count_idx + 1)) }) i
      (polling count_idx)

-- One load in the loop.
pub poll : ℕ → Syncer → ℕ → ℕ → Syncer
poll block_num s i count_idx =
    if s.count count_idx == block_num then to_phase s i (passed count_idx) else s

-- `currentCountIdx_ = countIdx`, and the return.
pub leave : Syncer → ℕ → ℕ → Syncer
leave s i count_idx = return (record s { current_count_idx = count_idx }) i

pub data Step (n : ℕ) (s : Syncer) : Syncer → Type 0 where
  enters : (i : ℕ) → i < n → (s.blocks i).phase ≡ outside → Step n s (enter n s i)
  resets : (i c : ℕ) → i < n → (s.blocks i).phase ≡ indexed c → Step n s (reset s i c)
  arrives : (i c : ℕ) → i < n → (s.blocks i).phase ≡ zeroed c → Step n s (arrive s i c)
  polls : (i c : ℕ) → i < n → (s.blocks i).phase ≡ polling c → Step n s (poll n s i c)
  leaves : (i c : ℕ) → i < n → (s.blocks i).phase ≡ passed c → Step n s (leave s i c)

pub data Reach (n : ℕ) : Syncer → Type 0 where
  start : Reach n init
  later : {s t : Syncer} → Reach n s → Step n s t → Reach n t

abbrev pub has_reset : Phase → Bool
has_reset outside = false
has_reset (indexed c) = false
has_reset _ = true

abbrev pub has_arrived : Phase → Bool
has_arrived (polling c) = true
has_arrived (passed c) = true
has_arrived _ = false

abbrev pub has_passed : Phase → Bool
has_passed (passed c) = true
has_passed _ = false

-- Whether a block has added itself to the counter of its call number `k`, from 0.
abbrev pub arrived : ℕ → Block → Bool
arrived k b = ltb k b.rounds || ((b.rounds == k) && has_arrived b.phase)
