-- ===== src/Bootstrap/Ring/Slots.antt =====
-- src/core/bootstrap/bootstrap.cc: the slices and neighbours of a rank, without `%`.
use native.Mathlib.Nat.{mod-eq_of_lt, add-mod_right}
use mscclpp.Base.{
  ℕ, zero, suc, ◌+◌, ◌-◌, ◌%◌, ◌<◌, ◌≤◌, ◌≡◌, ◌≢◌, sym, ap, ◌∙◌, dec_lt, dec_le, List, [], ◌∷◌,
  ◌++◌, ite, if_pos, if_neg, arith,
}
use mscclpp.Bootstrap.Ring.{next_rank, send_slice, recv_slice}

-- Where slice `j` of rank `r` lies.
abbrev pub place : ℕ → ℕ → ℕ → ℕ
place n r j = ite (dec_le j r) (r - j) (r + n - j)

pub place-lt : (n r j : ℕ) → r < n → j < n → place n r j < n
place-lt n r j hr hj = ground arith

pub send_slice-place : (n r j : ℕ) → r < n → j ≤ n → send_slice n r j ≡ place n r j
send_slice-place n r j hr hj = elim (dec_le j r) [
  | yes h ↦
      let e : r + n - j ≡ r - j + n = omega arith in
      rw (e, add-mod_right (r - j) n, mod-eq_of_lt {n = r - j} {m = n} (omega arith))
        (sym (if_pos (dec_le j r) h _ _))
  | no h ↦ mod-eq_of_lt (omega arith) ∙ sym (if_neg (dec_le j r) h _ _)
]

pub recv_slice-place : (n r i : ℕ) → r < n → i < n → recv_slice n r i ≡ place n r (i + 1)
recv_slice-place n r i hr hi =
    let e : r + n - i - 1 ≡ r + n - (i + 1) = omega arith in
    rw e (send_slice-place n r (i + 1) hr (omega arith))

pub next_rank-place : (n r : ℕ) → r < n → next_rank n r ≡ ite (dec_lt (r + 1) n) (r + 1) 0
next_rank-place n r hr = elim (dec_lt (r + 1) n) [
  | yes h ↦ mod-eq_of_lt h ∙ sym (if_pos (dec_lt (r + 1) n) h _ _)
  | no h ↦
      let e : r + 1 ≡ 0 + n = omega arith in
      ap (λ k. k % n) e
      ∙ add-mod_right 0 n
      ∙ mod-eq_of_lt {n = 0} {m = n} (omega arith)
      ∙ sym (if_neg (dec_lt (r + 1) n) h _ _)
]

pub next_rank-lt : (n r : ℕ) → r < n → next_rank n r < n
next_rank-lt n r hr = rw (next_rank-place n r hr) ground arith

pub next_rank-inj : (n q r : ℕ) → q < n → r < n → next_rank n q ≡ next_rank n r → q ≡ r
next_rank-inj n q r hq hr e =
    let e' = rw (next_rank-place n q hq, next_rank-place n r hr) at e in ground arith

pub next_rank-ne : (n r : ℕ) → r < n → 1 < n → next_rank n r ≢ r
next_rank-ne n r hr h = rw (next_rank-place n r hr) λ e. ground arith

-- Every rank is the next of another.
pub previous : (n r : ℕ) → r < n → (p : ℕ) × (p < n) × (next_rank n p ≡ r)
previous n zero hr = (n - 1, omega arith, next_rank-place n (n - 1) (omega arith) ∙ ground arith)
previous n (suc r) hr = (r, omega arith, next_rank-place n r (omega arith) ∙ ground arith)

-- What a rank sends in a round is, for the next rank, what it receives in that round.
pub place-next : (n r j : ℕ) → r < n → j + 1 < n → place n (next_rank n r) (j + 1) ≡ place n r j
place-next n r j hr hj = rw (next_rank-place n r hr) ground arith

pub place-inj : (n r i j : ℕ) → r < n → i < n → j < n → place n r i ≡ place n r j → i ≡ j
place-inj n r i j hr hi hj e = ground arith

-- Every slot is the place of a slice.
pub place-onto : (n r k : ℕ) → r < n → k < n → (j : ℕ) × (j < n) × (place n r j ≡ k)
place-onto n r k hr hk = elim (dec_le k r) [
  | yes h ↦ (r - k, omega arith, ground arith)
  | no h ↦ (r + n - k, omega arith, ground arith)
]

pub place-zero : (n r : ℕ) → place n r 0 ≡ r
place-zero n r = ground arith

pub next_rank-place_suc :
    (n r j : ℕ) → r < n → j + 1 < n → next_rank n (place n r (j + 1)) ≡ place n r j
next_rank-place_suc n r j hr hj =
    rw (next_rank-place n (place n r (j + 1)) (place-lt n r (j + 1) hr hj)) ground arith

module _ {A : Type 0} (n : ℕ) (own : ℕ → A) where
  -- The slices that rank `r` sends in `c` rounds from round `i`.
  abbrev pub slices : ℕ → ℕ → ℕ → List A
  slices r i zero = []
  slices r i (suc c) = own (place n r i) ∷ slices r (i + 1) c

  pub slices-append :
      (r i c : ℕ) → slices r i c ++ (own (place n r (i + c)) ∷ []) ≡ slices r i (suc c)
  slices-append r i zero = ap (λ k. own (place n r k) ∷ []) (omega arith)
  slices-append r i (suc c) =
      let e : i + suc c ≡ i + 1 + c = omega arith in
      ap (λ l. own (place n r i) ∷ l)
        (ap (λ k. slices r (i + 1) c ++ (own (place n r k) ∷ [])) e ∙ slices-append r (i + 1) c)
