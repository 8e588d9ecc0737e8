-- ===== src/Sync/Barrier/Tests.antt =====
-- A barrier of two blocks.
use mscclpp.Base.{ℕ, ◌<◌, ◌≡◌, refl, true, arith, ℕ_discrete, zero, suc}
use mscclpp.Sync.Barrier.{
  passed, Syncer, init, enter, reset, arrive, poll, leave, enters, resets, arrives, polls, leaves,
  Reach, start, later, arrived,
}
use mscclpp.Sync.Barrier.Rounds.{leaves_after_all, polling_passes}

-- Block 0 is in its loop.
abbrev one_arrived : Syncer
one_arrived = arrive (reset (enter 2 init 0) 0 1) 0 1

one_arrived_reached : Reach 2 one_arrived
unfolding init enter reset arrive ℕ_discrete
one_arrived_reached =
    later (later (later start (enters 0 (omega arith) refl)) (resets 0 1 (omega arith) refl))
      (arrives 0 1 (omega arith) refl)

-- Both blocks are.
abbrev both_arrived : Syncer
both_arrived = arrive (reset (enter 2 one_arrived 1) 1 1) 1 1

both_arrived_reached : Reach 2 both_arrived
unfolding init enter reset arrive ℕ_discrete
both_arrived_reached =
    later
      (later (later one_arrived_reached (enters 1 (omega arith) refl))
        (resets 1 1 (omega arith) refl))
      (arrives 1 1 (omega arith) refl)

-- Block 0 has returned.
abbrev returned : Syncer
returned = leave (poll 2 both_arrived 0 1) 0 1

returned_reached : Reach 2 returned
unfolding init enter reset arrive poll leave ℕ_discrete
returned_reached =
    later (later both_arrived_reached (polls 0 1 (omega arith) refl))
      (leaves 0 1 (omega arith) refl)

leaves_after_all_example : arrived 0 (returned.blocks 1) ≡ true
unfolding init enter reset arrive poll leave ℕ_discrete
leaves_after_all_example =
    leaves_after_all 2 0 1 0 returned (omega arith) (omega arith) returned_reached (omega arith)
      (omega arith) (omega arith)

all_arrived : (j : ℕ) → j < 2 → arrived 0 (both_arrived.blocks j) ≡ true
unfolding init enter reset arrive ℕ_discrete
all_arrived zero h = refl
all_arrived (suc zero) h = refl
all_arrived (suc (suc j)) h = absurd (omega arith)

polling_passes_example :
    (both_arrived.count 1 ≡ 2) × (((poll 2 both_arrived 0 1).blocks 0).phase ≡ passed 1)
unfolding init enter reset arrive ℕ_discrete
polling_passes_example =
    polling_passes 2 0 1 both_arrived (omega arith) (omega arith) both_arrived_reached (omega arith)
      refl all_arrived
