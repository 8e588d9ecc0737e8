-- ===== src/Bootstrap/Ring/Relay.antt =====
-- src/core/bootstrap/bootstrap.cc: what the loop of `broadcast` does on each rank.
use mathlib.Core.List.{append-nil}
use mscclpp.Base.{
  ℕ, zero, suc, ◌+◌, ◌-◌, ◌<◌, ◌≤◌, ◌≡◌, ◌≢◌, refl, false, ◌==◌, ==_self, ltb, if◌then◌else◌,
  ℕ_discrete, List, [], ◌∷◌, arith,
}
use mscclpp.Bootstrap.Ring.{Action, send, recv, receive_step, broadcast_steps, broadcast, next_rank}
use mscclpp.Bootstrap.Ring.Slots.{place, place-lt, next_rank-place, recv_slice-place}

-- How far a rank stands after the root.
abbrev pub distance : ℕ → ℕ → ℕ → ℕ
distance n root r = place n r root

pub receive_step-distance :
    (n root r : ℕ) → root < n → r < n → r ≢ root → receive_step n r root + 1 ≡ distance n root r
receive_step-distance n root r hroot hr ne = rw (recv_slice-place n r root hr hroot) ground arith

pub distance-next :
    (n root r : ℕ)
    → root < n
    → r < n
    → next_rank n r ≢ root
    → distance n root (next_rank n r) ≡ distance n root r + 1
distance-next n root r hroot hr ne =
    let h = rw (next_rank-place n r hr) at ne in rw (next_rank-place n r hr) ground arith

pub distance-last :
    (n root r : ℕ) → root < n → r < n → next_rank n r ≡ root → distance n root r + 1 ≡ n
distance-last n root r hroot hr e = let h = rw (next_rank-place n r hr) at e in ground arith

pub distance-root : (n root r : ℕ) → root < n → r < n → distance n root r ≡ 0 → r ≡ root
distance-root n root r hroot hr e = ground arith

-- The forwarding of a rank that has received.
abbrev pub forward : ℕ → ℕ → ℕ → List Action
forward n root r = if ltb (receive_step n r root + 2) n then send 0 ∷ [] else []

pub ==_ne : (a b : ℕ) → a ≢ b → (a == b) ≡ false
==_ne a b h = ground arith

module _ (n root : ℕ) where
  root_later : (step k : ℕ) → 0 < step → broadcast_steps n root root step k ≡ []
  unfolding broadcast_steps
  root_later step zero h = refl
  root_later step (suc k) h =
      rw (==_self root, ==_ne step 0 (λ e. omega arith)) (root_later (step + 1) k (omega arith))

  later_steps :
      (r step k : ℕ)
      → r ≢ root
      → receive_step n r root < step
      → broadcast_steps n r root step k ≡ []
  unfolding broadcast_steps
  later_steps r step zero ne h = refl
  later_steps r step (suc k) ne h =
      rw (==_ne r root ne, ==_ne step (receive_step n r root) (λ e. omega arith))
        (later_steps r (step + 1) k ne (omega arith))

  receiving_steps :
      (r step k : ℕ)
      → r ≢ root
      → step ≤ receive_step n r root
      → receive_step n r root < step + k
      → broadcast_steps n r root step k ≡ recv 0 ∷ forward n root r
  unfolding broadcast_steps
  receiving_steps r step zero ne h h' = absurd (omega arith)
  receiving_steps r step (suc k) ne h h' = elim (ℕ_discrete step (receive_step n r root)) [
    | yes e ↦
        rw
          (
            ==_ne r root ne,
            e,
            ==_self (receive_step n r root),
            later_steps r (receive_step n r root + 1) k ne (omega arith),
          )
          (append-nil (recv 0 ∷ forward n root r))
    | no away ↦
        rw (==_ne r root ne, ==_ne step (receive_step n r root) away)
          (receiving_steps r (step + 1) k ne (omega arith) (omega arith))
  ]

  root_steps : (k : ℕ) → 0 < k → broadcast_steps n root root 0 k ≡ send 0 ∷ []
  unfolding broadcast_steps
  root_steps zero h = absurd (omega arith)
  root_steps (suc k) h = rw (==_self root, root_later (0 + 1) k (omega arith)) refl

  pub broadcast-root : 1 < n → broadcast n root root ≡ send 0 ∷ []
  unfolding broadcast
  broadcast-root h = rw (==_ne n 1 (λ e. omega arith)) (root_steps (n - 1) (omega arith))

  pub broadcast-others :
      (r : ℕ) → 1 < n → root < n → r < n → r ≢ root → broadcast n root r ≡ recv 0 ∷ forward n root r
  unfolding broadcast
  broadcast-others r h hroot hr ne = rw (==_ne n 1 (λ e. omega arith)) (
      receiving_steps r 0 (n - 1) ne (omega arith)
        (omega (arith, receive_step-distance n root r hroot hr ne, place-lt n r root hr hroot)))
