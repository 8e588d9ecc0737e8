-- ===== src/Base/Family.antt =====
-- Functions of a number as arrays: one member changed, and how many of the first pass a test.
use Prim.Native.Nat.{ℕ, zero, suc, ◌+◌, ◌≤◌, ◌<◌}
use mathlib.Core.Path.{◌≡◌, refl, subst}
use mathlib.Core.Logic.{◌≢◌, inl, inr, ite}
use mathlib.Core.Bool.{Bool, true, false}
use native.Mathlib.Decide.{ℕ_discrete}
use mscclpp.Base.Tests.{if◌then◌else◌, Bool-cases}
use native.Mathlib.Omega.{arith}

abbrev pub update {ℓ} : {A : Type ℓ} → (ℕ → A) → ℕ → A → ℕ → A
update g at new k = ite (ℕ_discrete at k) new (g k)

pub update_self {ℓ} : {A : Type ℓ} (f : ℕ → A) (i : ℕ) (a : A) → update f i a i ≡ a
update_self f i a = ground arith

pub update_ne {ℓ} : {A : Type ℓ} (f : ℕ → A) (i j : ℕ) (a : A) → i ≢ j → update f i a j ≡ f j
update_ne f i j a h = ground arith

-- The number of members below `n` that pass a test.
unfoldable pub tally {ℓ} : {A : Type ℓ} → (A → Bool) → (ℕ → A) → ℕ → ℕ
tally test f zero = 0
tally test f (suc n) = (if test (f n) then 1 else 0) + tally test f n

abbrev pub bit : Bool → ℕ
bit b = if b then 1 else 0

tally-update_above {ℓ} :
    {A : Type ℓ} (test : A → Bool) (f : ℕ → A) (a : A) (n i : ℕ)
    → n ≤ i
    → tally test (update f i a) n ≡ tally test f n
unfolding tally
tally-update_above test f a zero i h = refl
tally-update_above test f a (suc n) i h =
    rw (update_ne f i n a (λ e. omega arith), tally-update_above test f a n i (omega arith)) refl

-- One new member changes the tally by what it and the old one count for.
pub tally-update {ℓ} :
    {A : Type ℓ} (test : A → Bool) (f : ℕ → A) (a : A) (n i : ℕ)
    → i < n
    → tally test (update f i a) n + bit (test (f i)) ≡ tally test f n + bit (test a)
unfolding tally
tally-update test f a zero i h = absurd (omega arith)
tally-update test f a (suc n) i h = elim (ℕ_discrete i n) [
  | yes e ↦
      subst
        (λ k.
          bit (test (update f i a k)) + tally test (update f i a) n + bit (test (f i))
          ≡ bit (test (f k)) + tally test f n + bit (test a))
        e (rw (update_self f i a, tally-update_above test f a n i (omega arith)) omega arith)
  | no ne ↦
      let rest = tally-update test f a n i (omega arith) in
      rw (update_ne f i n a ne) omega (arith, rest)
]

pub tally-eq-zero {ℓ} :
    {A : Type ℓ} (test : A → Bool) (f : ℕ → A) (n : ℕ)
    → ((i : ℕ) → i < n → test (f i) ≡ false)
    → tally test f n ≡ 0
unfolding tally
tally-eq-zero test f zero h = refl
tally-eq-zero test f (suc n) h =
    rw (h n (omega arith), tally-eq-zero test f n (λ i hi. h i (omega arith))) refl

pub tally-le {ℓ} : {A : Type ℓ} (test : A → Bool) (f : ℕ → A) (n : ℕ) → tally test f n ≤ n
unfolding tally
tally-le test f zero = omega arith
tally-le test f (suc n) = elim (Bool-cases (test (f n))) [
  | inl t ↦ rw t omega (arith, tally-le test f n)
  | inr t ↦ rw t omega (arith, tally-le test f n)
]

-- When the tally is the greatest possible, all members pass.
pub tally-full {ℓ} :
    {A : Type ℓ} (test : A → Bool) (f : ℕ → A) (n i : ℕ)
    → tally test f n ≡ n
    → i < n
    → test (f i) ≡ true
unfolding tally
tally-full test f zero i h hi = absurd (omega arith)
tally-full test f (suc n) i h hi = elim (Bool-cases (test (f n))) [
  | inl t ↦ elim (ℕ_discrete i n) [
    | yes e ↦ rw e t
    | no ne ↦
        let h' = rw t at h in
        let less : tally test f n ≡ n = omega arith in tally-full test f n i less (omega arith)
  ]
  | inr t ↦ let bound = tally-le test f n in let h' = rw t at h in absurd (omega (arith, bound))
]

pub tally-all {ℓ} :
    {A : Type ℓ} (test : A → Bool) (f : ℕ → A) (n : ℕ)
    → ((i : ℕ) → i < n → test (f i) ≡ true)
    → tally test f n ≡ n
unfolding tally
tally-all test f zero h = refl
tally-all test f (suc n) h =
    rw (h n (omega arith)) (omega (arith, tally-all test f n (λ i hi. h i (omega arith))))

pub tally-pos {ℓ} :
    {A : Type ℓ} (test : A → Bool) (f : ℕ → A) (n i : ℕ)
    → i < n
    → test (f i) ≡ true
    → 0 < tally test f n
unfolding tally
tally-pos test f zero i h t = absurd (omega arith)
tally-pos test f (suc n) i h t = elim (ℕ_discrete i n) [
  | yes e ↦ subst (λ k. 0 < bit (test (f k)) + tally test f n) e (rw t omega arith)
  | no ne ↦ omega (arith, tally-pos test f n i (omega arith) t)
]

pub tally-disjoint {ℓ} :
    {A : Type ℓ} (p q : A → Bool) (f : ℕ → A) (n : ℕ)
    → ((a : A) → bit (p a) + bit (q a) ≤ 1)
    → tally p f n + tally q f n ≤ n
unfolding tally
tally-disjoint p q f zero h = omega arith
tally-disjoint p q f (suc n) h = omega (arith, h (f n), tally-disjoint p q f n h)

pub tally_mono {ℓ} :
    {A : Type ℓ} (p q : A → Bool) (f : ℕ → A) (n : ℕ)
    → ((a : A) → bit (p a) ≤ bit (q a))
    → tally p f n ≤ tally q f n
unfolding tally
tally_mono p q f zero h = omega arith
tally_mono p q f (suc n) h = omega (arith, h (f n), tally_mono p q f n h)

-- A weaker test that some member more passes.
pub tally-lt {ℓ} :
    {A : Type ℓ} (p q : A → Bool) (f : ℕ → A) (n i : ℕ)
    → ((a : A) → bit (p a) ≤ bit (q a))
    → i < n
    → p (f i) ≡ false
    → q (f i) ≡ true
    → tally p f n < tally q f n
unfolding tally
tally-lt p q f zero i h hi t t' = absurd (omega arith)
tally-lt p q f (suc n) i h hi t t' = elim (ℕ_discrete i n) [
  | yes e ↦
      let m = tally_mono p q f n h in
      subst (λ k. bit (p (f k)) + tally p f n < bit (q (f k)) + tally q f n) e
        (rw (t, t') omega (arith, m))
  | no ne ↦ omega (arith, h (f n), tally-lt p q f n i h (omega arith) t t')
]

-- What holds of the new member and of the old others holds of all.
pub all_update {ℓ κ} :
    {A : Type ℓ} (P : ℕ → A → Type κ) (f : ℕ → A) (i : ℕ) (a : A)
    → P i a
    → ((j : ℕ) → i ≢ j → P j (f j))
    → (j : ℕ) → P j (update f i a j)
all_update P f i a here rest j = elim (ℕ_discrete i j) [
  | yes e ↦ subst (λ k. P k (update f i a k)) e (rw (update_self f i a) here)
  | no ne ↦ rw (update_ne f i j a ne) (rest j ne)
]

-- The same for two families with a new member at one place.
pub both_update {ℓ κ μ} :
    {A : Type ℓ} {B : Type κ} (P : ℕ → A → B → Type μ) (f : ℕ → A) (g : ℕ → B) (i : ℕ) (a : A)
    (b : B)
    → P i a b
    → ((j : ℕ) → i ≢ j → P j (f j) (g j))
    → (j : ℕ) → P j (update f i a j) (update g i b j)
both_update P f g i a b here rest j = elim (ℕ_discrete i j) [
  | yes e ↦
      subst (λ k. P k (update f i a k) (update g i b k)) e
        (rw (update_self f i a, update_self g i b) here)
  | no ne ↦ rw (update_ne f i j a ne, update_ne g i j b ne) (rest j ne)
]
