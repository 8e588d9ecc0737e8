-- ===== src/Plan/Sizes/Scratch.antt =====
-- The scratch buffer: its size, and the chunks that it holds.
use native.Mathlib.Nat.{
  mod-lt, div-add-mod', mul-mod_left, div-le_self, lt_of_mul-lt-mul_right, le_of_mul-le-mul_right,
  mul-le-mul_right,
}
use mscclpp.Base.{
  ℕ, suc, ◌+◌, ◌-◌, ◌*◌, ◌/◌, ◌%◌, ◌^◌, ◌≤◌, ◌<◌, ◌≡◌, ◌↔◌, ap, ◌∙◌, arith, ok, u64, if◌then◌else◌,
}
use mscclpp.Plan.Sizes.{Plan, round_up, div_up, cal_max_scratch_chunk_size}

-- `round_up` gives the least multiple of the alignment that is no less.
round_up_lem :
    (a align : ℕ)
    → 0 < align
    → align < 2 ^ 32
    → a < 2 ^ 63
    → (r : ℕ) × (round_up a align ≡ ok r) × (a ≤ r) × (r < a + align) × (r % align ≡ 0)
round_up_lem a align h small fits =
    (up * align, rw wrap (ground (arith, covers)), covers.0, covers.1, mul-mod_left up align)
  where
    up : ℕ
    up = (a + align - 1) / align

    wrap : u64 (a + align + 2 ^ 64 - 1) ≡ a + align - 1
    wrap = omega arith

    covers : (a ≤ up * align) × (up * align < a + align)
    covers = omega (arith, div-add-mod' (a + align - 1) align, mod-lt (a + align - 1) h)

-- What is left of the scratch buffer for one of two alternating halves.
abbrev pub usable : Plan → ℕ → ℕ
usable p scratch_size = if p.double_scratch_buffer then scratch_size / 2 else scratch_size

usable_le : (p : Plan) (scratch_size : ℕ) → scratch_size < 2 ^ 32 → usable p scratch_size < 2 ^ 32
usable_le p scratch_size h = ground arith

div_up_lem :
    (a b : ℕ)
    → 0 < b
    → b < 2 ^ 32
    → a < 2 ^ 32
    → (k : ℕ) × (div_up a b ≡ ok k) × (a ≤ k * b) × (k * b < a + b) × (k < 2 ^ 63)
div_up_lem a b h small fits = (
  (a + b - 1) / b,
  rw wrap (ground arith),
  omega (arith, div-add-mod' (a + b - 1) b, mod-lt (a + b - 1) h),
  omega (arith, div-add-mod' (a + b - 1) b, mod-lt (a + b - 1) h),
  omega (arith, div-le_self (a + b - 1) b),
)
  where
    wrap : u64 (a + b + 2 ^ 64 - 1) ≡ a + b - 1
    wrap = omega arith

-- Of two multiples of `a` that are less than `a` apart the larger is not larger.
same_multiple : (a s t : ℕ) → 0 < a → s % a ≡ 0 → t * a ≤ s → s < t * a + a → s ≡ t * a
same_multiple a s t h e le lt =
    let whole : s ≡ s / a * a = omega (arith, div-add-mod' s a) in
    let up : s / a < suc t = lt_of_mul-lt-mul_right a (omega arith) in
    let down : t ≤ s / a = le_of_mul-le-mul_right (omega arith) h in
    whole ∙ ap (λ q. q * a) (omega arith)

-- The chunks of size `s`, from `k` by rounding up, fit into `u` bytes.
chunks_fit :
    (u c a k s : ℕ)
    → 0 < a
    → 0 < c
    → u ≤ k * c
    → k * c < u + c
    → k ≤ s
    → s < k + a
    → s % a ≡ 0
    → (c * s ≤ u) ↔ (u % (c * a) ≡ 0)
chunks_fit u c a k s ha hc lo hi ks sk e = (
  λ fit.
      let all : u ≡ s / a * (c * a) =
        omega (arith, ap (λ q. c * q) is_whole, mul-le-mul_right c ks) in
      rw all (mul-mod_left (s / a) (c * a)),
  λ whole.
      let all : u ≡ u / (c * a) * a * c = omega (arith, div-add-mod' u (c * a)) in
      let low : u / (c * a) * a ≤ k = le_of_mul-le-mul_right (omega arith) hc in
      let high : k < suc (u / (c * a) * a) = lt_of_mul-lt-mul_right c (omega arith) in
      let exact : s ≡ u / (c * a) * a =
        same_multiple a s (u / (c * a)) ha e (omega arith) (omega arith) in
      omega (arith, ap (λ q. c * q) exact),
)
  where
    is_whole : s ≡ s / a * a
    is_whole = omega (arith, div-add-mod' s a)

-- `calMaxScratchChunkSize` divides the usable scratch buffer into chunks of the same, aligned size that
-- together reach its end; they stay inside it exactly when the chunks and the alignment divide it.
pub cal_max_scratch_chunk_size_lem :
    (p : Plan) (scratch_size s : ℕ)
    → 0 < p.buffer_alignment
    → p.buffer_alignment < 2 ^ 32
    → 0 < p.scratch_chunks
    → p.scratch_chunks < 2 ^ 32
    → scratch_size < 2 ^ 32
    → cal_max_scratch_chunk_size p scratch_size ≡ ok s
    → (s % p.buffer_alignment ≡ 0)
      × (usable p scratch_size ≤ p.scratch_chunks * s)
      × ((p.scratch_chunks * s ≤ usable p scratch_size)
          ↔ (usable p scratch_size % (p.scratch_chunks * p.buffer_alignment) ≡ 0))
unfolding cal_max_scratch_chunk_size
cal_max_scratch_chunk_size_lem p scratch_size s a a' c c' small e =
    let (k, ek, lo, hi, fits) =
      div_up_lem (usable p scratch_size) p.scratch_chunks c c' (usable_le p scratch_size small) in
    let (r, er, ge, lt, whole) = round_up_lem k p.buffer_alignment a a' fits in
    let same : s ≡ r = ground (arith, ek, er, c) in
    rw same (
      whole,
      omega (arith, mul-le-mul_right p.scratch_chunks ge),
      chunks_fit (usable p scratch_size) p.scratch_chunks p.buffer_alignment k r a c lo hi ge lt
          whole,
    )
