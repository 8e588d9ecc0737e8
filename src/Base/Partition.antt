-- ===== src/Base/Partition.antt =====
-- A rising sequence of offsets cuts a range into pieces.
use Prim.Native.Nat.{ℕ, zero, suc, ◌≤◌, ◌<◌}
use mathlib.Core.Path.{◌≡◌, subst, sym}
use native.Mathlib.Decide.{dec_lt, dec_le, ℕ_discrete}
use native.Mathlib.Omega.{arith}

-- `b` lies in piece `i` of the cuts `f`.
abbrev pub InPiece : (ℕ → ℕ) → ℕ → ℕ → Type 0
InPiece f b i = (f i ≤ b) × (b < f (suc i))

module _ (f : ℕ → ℕ) (n : ℕ) (rises : (i : ℕ) → i < n → f i ≤ f (suc i)) where
  rises_to : (i j : ℕ) → i ≤ j → j ≤ n → f i ≤ f j
  rises_to i zero h k = let e : i ≡ zero = omega arith in rw e (omega arith)
  rises_to i (suc j) h k = elim (ℕ_discrete i (suc j)) [
    | yes e ↦ subst (λ x. f x ≤ f (suc j)) (sym e) (omega arith)
    | no ne ↦ omega (arith, rises_to i j (omega arith) (omega arith), rises j (omega arith))
  ]

  piece_below : (k b : ℕ) → k ≤ n → f 0 ≤ b → b < f k → (i : ℕ) × (i < k) × InPiece f b i
  piece_below zero b h lo hi = absurd (omega arith)
  piece_below (suc k) b h lo hi = elim (dec_lt b (f k)) [
    | yes lt ↦ let (i, below, p) = piece_below k b (omega arith) lo lt in (i, omega arith, p)
    | no ge ↦ (k, omega arith, (omega arith, hi))
  ]

  pieces_ordered : (b i j : ℕ) → i < n → j < n → InPiece f b i → InPiece f b j → i ≤ j
  pieces_ordered b i j hi hj p q = elim (dec_le i j) [
    | yes le ↦ le
    | no gt ↦ absurd (omega (arith, rises_to (suc j) i (omega arith) (omega arith)))
  ]

  -- Every element of the range lies in exactly one piece.
  pub one_piece :
      (b : ℕ)
      → f 0 ≤ b
      → b < f n
      → (i : ℕ) × (i < n) × InPiece f b i × ((j : ℕ) → j < n → InPiece f b j → j ≡ i)
  one_piece b lo hi =
      let (i, below, p) = piece_below n b (omega arith) lo hi in
      (
        i,
        below,
        p,
        λ j hj q.
            omega (arith, pieces_ordered b i j below hj p q, pieces_ordered b j i hj below q p),
      )
