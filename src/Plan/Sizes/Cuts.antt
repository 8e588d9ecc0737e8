-- ===== src/Plan/Sizes/Cuts.antt =====
-- `calcOffset` and `calcSize` where a buffer is cut.
use native.Mathlib.Nat.{mod-eq_of_lt, mul-le-mul_right}
use mscclpp.Base.{
  ℕ, suc, ◌+◌, ◌-◌, ◌*◌, ◌/◌, ◌%◌, ◌^◌, ◌≤◌, ◌<◌, min, ◌≡◌, ap, arith, ok, u32, ltb, if◌then◌else◌,
  dec_lt,
}
use mscclpp.Plan.Sizes.{Plan, calc_offset, calc_size}

-- The buffer is made of whole units, at least one for each slice, and fits 32 bits.
pub record IsSliceable (p : Plan) (size slices : ℕ) : Type 0 where
  pub some_slice : 0 < slices
  pub enough : slices ≤ size / p.buffer_alignment
  pub whole : size ≡ size / p.buffer_alignment * p.buffer_alignment
  pub small : size < 2 ^ 32
  pub unit : 0 < p.buffer_alignment

-- Where slice `index` begins: the first `n % slices` slices are one unit longer.
abbrev pub cut : Plan → ℕ → ℕ → ℕ → ℕ
cut p size slices index =
    let n = size / p.buffer_alignment in
    (index * (n / slices) + min index (n % slices)) * p.buffer_alignment

quotient_le :
    (n slices index : ℕ)
    → 0 < slices
    → index ≤ slices
    → index * (n / slices) + min index (n % slices) ≤ n
quotient_le n slices index h k = grind arith

whole_range :
    (n : ℕ)
    → n < 2 ^ 32
    → 0 < n
    → u32 (u32 (n * (n / n)) + (if ltb (n % n) (n % n) then n % n else n % n))
      ≡ n * (n / n) + min n (n % n)
whole_range n m h = grind arith

units_at :
    (n slices index : ℕ)
    → 0 < slices
    → slices ≤ n
    → index ≤ slices
    → n < 2 ^ 32
    → u32 (
        u32 (index * (n / slices))
        + (if ltb (index % n) (n % slices) then index % n else n % slices))
      ≡ index * (n / slices) + min index (n % slices)
units_at n slices index h k l m = elim (dec_lt index n) [
  | yes lt ↦ ground (arith, mod-eq_of_lt lt, quotient_le n slices index h l)
  | no ge ↦
      let all : slices ≡ n = omega arith in
      let last : index ≡ n = omega arith in rw (all, last) (whole_range n m (omega arith))
]

pub units_small :
    (p : Plan) (size slices : ℕ) → IsSliceable p size slices → size / p.buffer_alignment < 2 ^ 32
units_small p size slices v = grind arith

pub cut_le :
    (p : Plan) (size slices index : ℕ)
    → IsSliceable p size slices
    → index ≤ slices
    → cut p size slices index ≤ size
cut_le p size slices index v h = omega (
  arith,
  mul-le-mul_right p.buffer_alignment
      (quotient_le (size / p.buffer_alignment) slices index v.some_slice h),
)

-- `calcOffset` is `cut`, without wrap-around, on every slice and at the end.
pub calc_offset_lem :
    (p : Plan) (size slices index : ℕ)
    → IsSliceable p size slices
    → index ≤ slices
    → calc_offset p size index slices ≡ ok (cut p size slices index)
unfolding calc_offset
calc_offset_lem p size slices index v h = ground (
  arith,
  mod-eq_of_lt small,
  units_at (size / p.buffer_alignment) slices index v.some_slice v.enough h small,
  cut_le p size slices index v h,
)
  where
    small : size / p.buffer_alignment < 2 ^ 32
    small = units_small p size slices v

pub cut_rises :
    (p : Plan) (size slices index : ℕ) → cut p size slices index ≤ cut p size slices (suc index)
cut_rises p size slices index = grind arith

-- `calcSize` is the distance to the next cut.
pub calc_size_lem :
    (p : Plan) (size slices index : ℕ)
    → IsSliceable p size slices
    → index < slices
    → calc_size p size index slices ≡ ok (cut p size slices (suc index) - cut p size slices index)
unfolding calc_size
calc_size_lem p size slices index v h =
    rw (here, wrap, next)
      (ap ok (
        omega (
          arith,
          cut_rises p size slices index,
          cut_le p size slices index v (omega arith),
          cut_le p size slices (suc index) v h,
          v.small,
        )))
  where
    here : calc_offset p size index slices ≡ ok (cut p size slices index)
    here = calc_offset_lem p size slices index v (omega arith)

    wrap : u32 (index + 1) ≡ suc index
    wrap = omega (arith, units_small p size slices v, v.enough)

    next : calc_offset p size (suc index) slices ≡ ok (cut p size slices (suc index))
    next = calc_offset_lem p size slices (suc index) v h
