-- ===== src/Bootstrap/Ring/Tests.antt =====
-- src/core/bootstrap/bootstrap.cc: the collectives of the ring at concrete inputs.
use mscclpp.Base.{
  ℕ, ◌+◌, ◌*◌, ◌-◌, ◌≤◌, ◌<◌, ◌≡◌, refl, ◌⊎◌, none, some, [], ◌∷◌, length, ℕ_discrete, arith,
}
use mscclpp.Bootstrap.Ring.{
  send, recv, all_gather, gather_rounds, broadcast, broadcast_steps, Ring, step_rank, begin, Runs,
  start, later,
}
use mscclpp.Bootstrap.Ring.Progress.{all_gather_ends, barrier_holds}
use mscclpp.Bootstrap.Ring.Delivered.{broadcast_ends}

-- The second rank of three
all_gather_test : all_gather 3 1 ≡ send 1 ∷ recv 0 ∷ send 0 ∷ recv 2 ∷ []
unfolding all_gather gather_rounds
all_gather_test = refl

-- From rank 1 of three, the last rank to receive is 0.
broadcast_test :
    (broadcast 3 1 1 ≡ send 0 ∷ [])
    × (broadcast 3 1 2 ≡ recv 0 ∷ send 0 ∷ [])
    × (broadcast 3 1 0 ≡ recv 0 ∷ [])
unfolding broadcast broadcast_steps
broadcast_test = (refl, refl, refl)

-- Rank `r` holds `10 * r + q` in slot `q`.
abbrev contents : ℕ → ℕ → ℕ
contents r q = 10 * r + q

-- Two ranks, each of which sends before either receives.
gathered : (s : Ring ℕ) × Runs 2 1 (begin (all_gather 2) contents) 4 s
unfolding step_rank begin all_gather gather_rounds ℕ_discrete
gathered = (
  _,
  later 1 (omega arith)
      (later 0 (omega arith) (later 1 (omega arith) (later 0 (omega arith) start refl) refl) refl)
      refl,
)

all_gather_ends_example :
    (4 ≡ 2 * (2 * (2 - 1)))
      × ((r q : ℕ)
          → r < 2
          → q < 2
          → (gathered.0.todo r ≡ []) × (gathered.0.buffer r q ≡ contents q q))
    ⊎ (4 < 2 * (2 * (2 - 1)))
      × ((r : ℕ) × (r < 2) × ((u : Ring ℕ) × (step_rank 2 1 gathered.0 r ≡ some u)))
all_gather_ends_example = all_gather_ends 2 1 contents 4 gathered.0 (omega arith) gathered.1

-- Rank 0 has returned, and rank 1 has not received.
one_returned : (s : Ring ℕ) × Runs 2 1 (begin (all_gather 2) contents) 3 s × (s.todo 0 ≡ [])
unfolding step_rank begin all_gather gather_rounds ℕ_discrete
one_returned = (
  _,
  later 0 (omega arith) (later 1 (omega arith) (later 0 (omega arith) start refl) refl) refl,
  refl,
)

barrier_holds_example : length (one_returned.0.todo 1) < length (all_gather 2 1)
barrier_holds_example =
    barrier_holds 2 1 contents 3 one_returned.0 one_returned.1 0 1 (omega arith) (omega arith)
      (λ e. omega arith) one_returned.2

-- Rank 1 sends to rank 0, without room in the socket.
broadcasted : (s : Ring ℕ) × Runs 2 0 (begin (broadcast 2 1) contents) 2 s
unfolding step_rank begin broadcast broadcast_steps ℕ_discrete
broadcasted = (_, later 0 (omega arith) (later 1 (omega arith) start refl) refl)

broadcast_ends_example :
    (2 ≤ 2 * 2)
    × (((r : ℕ) → r < 2 → (broadcasted.0.todo r ≡ []) × (broadcasted.0.buffer r 0 ≡ contents 1 0))
        ⊎ ((r : ℕ) × (r < 2) × ((u : Ring ℕ) × (step_rank 2 0 broadcasted.0 r ≡ some u))))
broadcast_ends_example =
    broadcast_ends 2 0 1 (omega arith) (omega arith) contents 2 broadcasted.0 broadcasted.1

-- Without room for a slice, each rank waits in its first send.
all_gather_stuck :
    (step_rank 2 0 (begin (all_gather 2) contents) 0 ≡ none)
    × (step_rank 2 0 (begin (all_gather 2) contents) 1 ≡ none)
unfolding step_rank begin all_gather gather_rounds
all_gather_stuck = (refl, refl)
