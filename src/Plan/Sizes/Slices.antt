-- ===== src/Plan/Sizes/Slices.antt =====
-- `calcOffset` and `calcSize` cut a buffer into slices, one for each thread block of a group.
use native.Mathlib.Nat.{
  mod-eq_of_lt, mul-le-mul_right, zero-mul, div-eq_of_lt, mod-lt, mod_self, div-mul-le_self,
  div-le_self, le_of_lt,
}
use mscclpp.Base.{
  ℕ, suc, ◌+◌, ◌-◌, ◌*◌, ◌/◌, ◌%◌, ◌^◌, ◌≤◌, ◌<◌, min, ◌≡◌, ◌↔◌, sym, ◌∙◌, ap, arith, ok, u32, ltb,
  if◌then◌else◌, InPiece, one_piece,
}
use mscclpp.Plan.Sizes.{Plan, calc_offset, calc_size}
use mscclpp.Plan.Sizes.Cuts.{IsSliceable, cut, calc_offset_lem, cut_rises, calc_size_lem}

-- Byte `b` of the buffer is in the part that thread block `index` of the group works on.
abbrev pub InSlice : Plan → ℕ → ℕ → ℕ → ℕ → Type 0
InSlice p size slices b index =
    (off len : ℕ) × (calc_offset p size index slices ≡ ok off)
    × (calc_size p size index slices ≡ ok len)
    × (off ≤ b)
    × (b < off + len)

InSlice-cut :
    (p : Plan) (size slices b index : ℕ)
    → IsSliceable p size slices
    → index < slices
    → InSlice p size slices b index ↔ InPiece (cut p size slices) b index
InSlice-cut p size slices b index v h = (
  λ (off, len, e, e', lo, hi). ground (arith, at_offset, at_size, cut_rises p size slices index),
  λ (lo, hi). (
    cut p size slices index,
    _,
    at_offset,
    at_size,
    lo,
    omega (arith, cut_rises p size slices index),
  ),
)
  where
    at_offset : calc_offset p size index slices ≡ ok (cut p size slices index)
    at_offset = calc_offset_lem p size slices index v (omega arith)

    at_size :
        calc_size p size index slices ≡ ok (cut p size slices (suc index) - cut p size slices index)
    at_size = calc_size_lem p size slices index v h

units_ends :
    (n slices : ℕ)
    → 0 < slices
    → (0 * (n / slices) + min 0 (n % slices) ≡ 0)
      × (slices * (n / slices) + min slices (n % slices) ≡ n)
units_ends n slices h = (omega arith, grind arith)

cut_ends :
    (p : Plan) (size slices : ℕ)
    → IsSliceable p size slices
    → (cut p size slices 0 ≡ 0) × (cut p size slices slices ≡ size)
cut_ends p size slices v = (
  ap (λ t. t * p.buffer_alignment) (units_ends n slices v.some_slice).0
      ∙ zero-mul p.buffer_alignment,
  ap (λ t. t * p.buffer_alignment) (units_ends n slices v.some_slice).1 ∙ sym v.whole,
)
  where
    n : ℕ
    n = size / p.buffer_alignment

-- A buffer of whole units of the alignment, below 4 GB, with at least as many units as slices, is
-- cut up by `calcOffset` and `calcSize`: every byte of it is in exactly one slice.
pub one_slice :
    (p : Plan) (size slices b : ℕ)
    → IsSliceable p size slices
    → b < size
    → (i : ℕ) × (i < slices)
      × InSlice p size slices b i
      × ((j : ℕ) → j < slices → InSlice p size slices b j → j ≡ i)
one_slice p size slices b v h =
    let ends = cut_ends p size slices v in
    let (i, below, here, only) =
      one_piece (cut p size slices) slices (λ i _. cut_rises p size slices i) b
        (omega (arith, ends.0)) (omega (arith, ends.1)) in
    (
      i,
      below,
      (InSlice-cut p size slices b i v below).1 here,
      λ j hj q. only j hj ((InSlice-cut p size slices b j v hj).0 q),
    )

step_bounds :
    (n slices i a : ℕ)
    → let step =
        (suc i * (n / slices) + min (suc i) (n % slices)) * a
        - (i * (n / slices) + min i (n % slices)) * a in
      (n / slices * a ≤ step) × (step ≤ n / slices * a + a)
step_bounds n slices i a = (grind arith, omega (arith, mul-le-mul_right a unit_more))
  where
    unit_more :
        suc i * (n / slices) + min (suc i) (n % slices)
        ≤ i * (n / slices) + min i (n % slices) + n / slices + 1
    unit_more = omega arith

-- For such a buffer, the sizes that `calcSize` gives to two slices differ by at most one unit of
-- the alignment.
pub slices_balanced :
    (p : Plan) (size slices i j len len' : ℕ)
    → IsSliceable p size slices
    → i < slices
    → j < slices
    → calc_size p size i slices ≡ ok len
    → calc_size p size j slices ≡ ok len'
    → len ≤ len' + p.buffer_alignment
slices_balanced p size slices i j len len' v hi hj e e' = ground (
  arith,
  calc_size_lem p size slices i v hi,
  calc_size_lem p size slices j v hj,
  step_bounds (size / p.buffer_alignment) slices i p.buffer_alignment,
  step_bounds (size / p.buffer_alignment) slices j p.buffer_alignment,
)

few_units :
    (n slices index : ℕ)
    → 0 < n
    → n < slices
    → n < 2 ^ 32
    → u32 (
        u32 (index * (n / slices))
        + (if ltb (index % n) (n % slices) then index % n else n % slices))
      ≡ index % n
few_units n slices index h k m =
    rw (div-eq_of_lt k, mod-eq_of_lt k) (ground (arith, mod-lt index h))

calc_offset_few :
    (p : Plan) (size slices index : ℕ)
    → 0 < p.buffer_alignment
    → size < 2 ^ 32
    → 0 < size / p.buffer_alignment
    → size / p.buffer_alignment < slices
    → calc_offset p size index slices
      ≡ ok (index % (size / p.buffer_alignment) * p.buffer_alignment)
unfolding calc_offset
calc_offset_few p size slices index a small some few = ground (
  arith,
  mod-eq_of_lt fits,
  few_units (size / p.buffer_alignment) slices index some few fits,
  mul-le-mul_right p.buffer_alignment (le_of_lt (mod-lt index some)),
  div-mul-le_self size p.buffer_alignment,
)
  where
    fits : size / p.buffer_alignment < 2 ^ 32
    fits = omega (arith, div-le_self size p.buffer_alignment)

-- With more than one unit but fewer units than slices, below 4 GB and 2^32 slices, `calcSize` of
-- the slice of the last unit is the start of that slice taken from 2^32: the next cut goes back to
-- the start of the buffer.
pub calc_size_wraps :
    (p : Plan) (size slices : ℕ)
    → 0 < p.buffer_alignment
    → size < 2 ^ 32
    → 1 < size / p.buffer_alignment
    → size / p.buffer_alignment < slices
    → slices < 2 ^ 32
    → calc_size p size (size / p.buffer_alignment - 1) slices
      ≡ ok (2 ^ 32 - (size / p.buffer_alignment - 1) * p.buffer_alignment)
unfolding calc_size
calc_size_wraps p size slices a small some few s =
    rw
      (
        calc_offset_few p size slices (n - 1) a small (omega arith) few,
        mod-eq_of_lt below,
        wrap,
        calc_offset_few p size slices n a small (omega arith) few,
        mod_self n,
      )
      (ap ok (
        omega (
          arith,
          mul-le-mul_right p.buffer_alignment below,
          mul-le-mul_right p.buffer_alignment two,
          div-mul-le_self size p.buffer_alignment,
        )))
  where
    n : ℕ
    n = size / p.buffer_alignment

    below : n - 1 < n
    below = omega arith

    two : 1 ≤ n - 1
    two = omega arith

    wrap : u32 (n - 1 + 1) ≡ n
    wrap = omega arith
