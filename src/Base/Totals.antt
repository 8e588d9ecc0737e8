-- ===== src/Base/Totals.antt =====
-- The total of a measure over the members of a family.
use Prim.Native.Nat.{ℕ, zero, suc, ◌+◌, ◌*◌, ◌≤◌, ◌<◌}
use mathlib.Core.Path.{◌≡◌, refl, subst}
use native.Mathlib.Decide.{ℕ_discrete}
use native.Mathlib.Omega.{arith}
use native.Mathlib.Nat.{suc-mul}
use mscclpp.Base.Family.{update, update_self, update_ne}

module _ {ℓ} {A : Type ℓ} (measure : A → ℕ) where
  unfoldable pub total : (ℕ → A) → ℕ → ℕ
  total f zero = 0
  total f (suc n) = measure (f n) + total f n

  total-update_above : (f : ℕ → A) (a : A) (n i : ℕ) → n ≤ i → total (update f i a) n ≡ total f n
  unfolding total
  total-update_above f a zero i h = refl
  total-update_above f a (suc n) i h =
      rw (update_ne f i n a (λ e. omega arith), total-update_above f a n i (omega arith)) refl

  pub total-update :
      (f : ℕ → A) (a : A) (n i : ℕ)
      → i < n
      → total (update f i a) n + measure (f i) ≡ total f n + measure a
  unfolding total
  total-update f a zero i h = absurd (omega arith)
  total-update f a (suc n) i h = elim (ℕ_discrete i n) [
    | yes e ↦
        subst
          (λ k.
            measure (update f i a k) + total (update f i a) n + measure (f i)
            ≡ measure (f k) + total f n + measure a)
          e (rw (update_self f i a, total-update_above f a n i (omega arith)) omega arith)
    | no ne ↦
        let rest = total-update f a n i (omega arith) in
        rw (update_ne f i n a ne) omega (arith, rest)
  ]

  -- All members of one measure.
  pub total-const :
      (f : ℕ → A) (n m : ℕ) → ((i : ℕ) → i < n → measure (f i) ≡ m) → total f n ≡ n * m
  unfolding total
  total-const f zero m h = omega arith
  total-const f (suc n) m h =
      rw (h n (omega arith), total-const f n m (λ i hi. h i (omega arith)), suc-mul n m) omega arith

  pub total-le : (f : ℕ → A) (n m : ℕ) → ((i : ℕ) → i < n → measure (f i) ≤ m) → total f n ≤ n * m
  unfolding total
  total-le f zero m h = omega arith
  total-le f (suc n) m h =
      let rest = total-le f n m (λ i hi. h i (omega arith)) in
      let here = h n (omega arith) in rw (suc-mul n m) omega (arith, rest, here)

  pub le-total : (f : ℕ → A) (n i : ℕ) → i < n → measure (f i) ≤ total f n
  unfolding total
  le-total f zero i h = absurd (omega arith)
  le-total f (suc n) i h = elim (ℕ_discrete i n) [
    | yes e ↦ subst (λ k. measure (f i) ≤ measure (f k) + total f n) e (omega arith)
    | no ne ↦ omega (arith, le-total f n i (omega arith))
  ]
