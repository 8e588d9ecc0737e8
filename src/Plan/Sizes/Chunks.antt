-- ===== src/Plan/Sizes/Chunks.antt =====
-- What `checkMessageSize` lets through, and where the chunks of such a message lie.
use native.Mathlib.Nat.{
  mod-eq_of_lt, div-add-mod', div-eq_of_eq-mul_left, mul-le-mul_right, div-mul-le_self,
  le-mul_of_pos_right,
}
use text.Mathlib.Text.{◌==◌ as str_eq}
use mscclpp.Base.{
  false, refl, ℕ, ◌+◌, ◌*◌, ◌/◌, ◌%◌, ◌^◌, ◌≤◌, ◌<◌, ◌≡◌, ap, ◌∙◌, arith, ok, u32, if◌then◌else◌,
  inl, inr, dec_lt, Result-cases,
}
use mscclpp.Plan.Types.{BufferType}
use mscclpp.Plan.Sizes.Cuts.{IsSliceable, cut, calc_offset_lem, units_small}
use mscclpp.Plan.Sizes.{
  Plan, predefined_scratch_size, check_message_size, get_size_and_chunks, get_offset,
  get_buffer_size, calc_offset, cal_max_scratch_chunk_size, is_scratch,
}

-- The size that the limits of the plan are about.
abbrev pub message_size : Plan → ℕ
message_size p = if str_eq p.collective "allgather" then p.output_size else p.input_size

-- Input and output are whole multiples of the alignment and the chunks, and the message is in range.
pub record IsLoadable (p : Plan) : Type 0 where
  pub unit : 0 < p.buffer_alignment
  pub input_some : 0 < p.input_chunks
  pub output_some : 0 < p.output_chunks
  pub input_whole : p.input_size % p.buffer_alignment ≡ 0
  pub output_whole : p.output_size % p.buffer_alignment ≡ 0
  pub input_even : p.input_size / p.buffer_alignment % p.input_chunks ≡ 0
  pub output_even : p.output_size / p.buffer_alignment % p.output_chunks ≡ 0
  pub not_below : p.min_message_size ≤ message_size p
  pub not_above : message_size p ≤ p.max_message_size

pub check_message_size-IsLoadable : (p : Plan) → check_message_size p ≡ ok tt → IsLoadable p
unfolding check_message_size
check_message_size-IsLoadable p h = ground arith

pub IsLoadable-check_message_size : (p : Plan) → IsLoadable p → check_message_size p ≡ ok tt
unfolding check_message_size
IsLoadable-check_message_size p v = ground arith

le_of_mod-eq-zero : (m n : ℕ) → m % n ≡ 0 → 0 < m → n ≤ m
le_of_mod-eq-zero m n h some = elim (dec_lt m n) [
  | yes lt ↦ omega (arith, mod-eq_of_lt lt)
  | no ge ↦ omega arith
]

-- The message that `getSizeAndChunks` picks, cut into `n` chunks of the same number of units.
pub record IsChunked (p : Plan) (size n : ℕ) : Type 0 where
  pub sliceable : IsSliceable p size n
  pub even : size / p.buffer_alignment % n ≡ 0

whole-IsChunked :
    (p : Plan) (size n : ℕ)
    → 0 < p.buffer_alignment
    → 0 < n
    → size % p.buffer_alignment ≡ 0
    → size / p.buffer_alignment % n ≡ 0
    → 0 < size
    → size < 2 ^ 32
    → IsChunked p size n
whole-IsChunked p size n a h whole even some small = record {
  sliceable = record {
    some_slice = h;
    enough = le_of_mod-eq-zero (size / p.buffer_alignment) n even units;
    whole = is_whole;
    small = small;
    unit = a;
  };
  even = even;
}
  where
    is_whole : size ≡ size / p.buffer_alignment * p.buffer_alignment
    is_whole = omega (arith, div-add-mod' size p.buffer_alignment)

    units : 0 < size / p.buffer_alignment
    units = grind arith

pub picked_input :
    (p : Plan) (size n : ℕ)
    → IsLoadable p
    → get_size_and_chunks p p.input_size p.output_size ≡ ok (size, n)
    → (size ≡ p.input_size) × (n ≡ p.input_chunks)
unfolding get_size_and_chunks
picked_input p size n v e = ground arith

pub loadable-IsChunked :
    (p : Plan) (size n : ℕ)
    → check_message_size p ≡ ok tt
    → get_size_and_chunks p p.input_size p.output_size ≡ ok (size, n)
    → 0 < size
    → size < 2 ^ 32
    → IsChunked p size n
loadable-IsChunked p size n h e some small =
    let v = check_message_size-IsLoadable p h in
    let (s, c) = picked_input p size n v e in
    whole-IsChunked p size n v.unit (rw c v.input_some) (rw s v.input_whole)
      (rw (s, c) v.input_even) some small

units_even :
    (p : Plan) (size n : ℕ)
    → IsChunked p size n
    → size ≡ size / p.buffer_alignment / n * n * p.buffer_alignment
units_even p size n v =
    v.sliceable.whole
    ∙ ap (λ t. t * p.buffer_alignment)
        (omega (arith, div-add-mod' (size / p.buffer_alignment) n, v.even))

chunk_units :
    (p : Plan) (size n : ℕ)
    → IsChunked p size n
    → size / n ≡ size / p.buffer_alignment / n * p.buffer_alignment
chunk_units p size n v =
    div-eq_of_eq-mul_left v.sliceable.some_slice (omega (arith, units_even p size n v))

pub whole_chunks : (p : Plan) (size n : ℕ) → IsChunked p size n → size ≡ size / n * n
whole_chunks p size n v =
    omega (arith, units_even p size n v, ap (λ t. t * n) (chunk_units p size n v))

cut_even :
    (p : Plan) (size n index : ℕ) → IsChunked p size n → cut p size n index ≡ index * (size / n)
cut_even p size n index v = rw (v.even, chunk_units p size n v) (grind arith)

chunk_end : (size n k : ℕ) → k ≤ n → k * (size / n) ≤ size
chunk_end size n k h = omega (arith, mul-le-mul_right (size / n) h, div-mul-le_self size n)

pub scratch_total :
    (p : Plan) (size : ℕ)
    → 0 < p.buffer_alignment
    → (s : ℕ) × (cal_max_scratch_chunk_size p size ≡ ok s)
unfolding cal_max_scratch_chunk_size
scratch_total p size h = elim (Result-cases (cal_max_scratch_chunk_size p size)) [
  | inl r ↦ r
  | inr (e, q) ↦ absurd (ground arith)
]

pub calc_offset_even :
    (p : Plan) (size n index : ℕ)
    → IsChunked p size n
    → index * (size / n) < 2 ^ 32
    → calc_offset p size index n ≡ ok (index * (size / n))
unfolding calc_offset
calc_offset_even p size n index v small = ground (
  arith,
  mod-eq_of_lt (units_small p size n v.sliceable),
  v.even,
  v.sliceable.enough,
  ap (λ t. index * t) (chunk_units p size n v),
  units_fit,
)
  where
    units_fit : index * (size / p.buffer_alignment / n) < 2 ^ 32
    units_fit = omega (
      arith,
      ap (λ t. index * t) (chunk_units p size n v),
      le-mul_of_pos_right (index * (size / p.buffer_alignment / n)) v.sliceable.unit,
    )

-- A plan that passed the size check, with a message that is not empty and below 4 GB, puts chunk
-- `index` of the message at `index` times the size of a chunk, up to and including the end.
pub get_offset-check_message_size :
    (p : Plan) (size n index : ℕ)
    → check_message_size p ≡ ok tt
    → get_size_and_chunks p p.input_size p.output_size ≡ ok (size, n)
    → 0 < size
    → size < 2 ^ 32
    → index ≤ n
    → get_offset p p.input_size p.output_size index BufferType.none ≡ ok (index * (size / n))
unfolding get_offset
get_offset-check_message_size p size n index h e some small le =
    let v = loadable-IsChunked p size n h e some small in
    let (s, scratch) = scratch_total p predefined_scratch_size v.sliceable.unit in
    rw (e, scratch)
      (ground (arith, calc_offset_lem p size n index v.sliceable le, cut_even p size n index v))

-- A plan that passed the size check, with a message that is not empty and below 4 GB, gives a
-- buffer of `count` chunks inside the message `count` times the size of a chunk.
pub get_buffer_size-check_message_size :
    (p : Plan) (size n index count : ℕ)
    → check_message_size p ≡ ok tt
    → get_size_and_chunks p p.input_size p.output_size ≡ ok (size, n)
    → 0 < size
    → size < 2 ^ 32
    → index + count ≤ n
    → get_buffer_size p p.input_size p.output_size index count ≡ ok (count * (size / n))
unfolding get_buffer_size
get_buffer_size-check_message_size p size n index count h e some small le =
    let v = loadable-IsChunked p size n h e some small in
    rw
      (
        get_offset-check_message_size p size n index h e some small (omega arith),
        wrap,
        get_offset-check_message_size p size n (index + count) h e some small le,
      )
      (ap ok
        (omega (arith, chunk_end size n (index + count) le, chunk_end size n index (omega arith))))
  where
    wrap : u32 (index + count) ≡ index + count
    wrap =
        let v = loadable-IsChunked p size n h e some small in
        omega (arith, v.sliceable.enough, units_small p size n v.sliceable)

-- The type of a buffer matters to `getOffset` for scratch buffers only.
pub get_offset_other :
    (p : Plan) (input_size output_size index : ℕ) (t : BufferType)
    → is_scratch t ≡ false
    → get_offset p input_size output_size index t
      ≡ get_offset p input_size output_size index BufferType.none
unfolding get_offset
get_offset_other p input_size output_size index t h = rw h refl
