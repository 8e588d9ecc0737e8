-- ===== src/Plan/Operations/Slicing.antt =====
-- src/core/executor/execution_plan.cc: the thread blocks of a group share out the buffer of an operation.
use Prim.Native.String.{String}
use native.Mathlib.Nat.{mod-eq_of_lt, mul-le-mul_right, add-mul}
use mscclpp.Base.{
  ℕ, suc, ◌+◌, ◌-◌, ◌*◌, ◌/◌, ◌^◌, ◌<◌, ◌≤◌, ◌≡◌, sym, ap₂, ◌∙◌, false, none, some, ◌↔◌, Result, ok,
  err, ok-inj, u32, arith,
}
use mscclpp.Plan.Types.{BufferType, ChannelType, convert_to_buffer_type}
use mscclpp.Plan.Sizes.{Plan, get_size_and_chunks, check_message_size, is_scratch}
use mscclpp.Plan.Sizes.Cuts.{IsSliceable, cut, cut_le, units_small, calc_offset_lem, calc_size_lem}
use mscclpp.Plan.Sizes.Slices.{InSlice, one_slice}
use mscclpp.Plan.Sizes.Chunks.{
  get_offset-check_message_size, get_buffer_size-check_message_size, get_offset_other,
  loadable-IsChunked, whole_chunks,
}
use mscclpp.Plan.Operations.{Buffer, by_type, BufferSlice, Context, setup_buffer}

-- Byte `b` of a buffer is one of those that an operation works on.
abbrev pub HasByte : Result BufferSlice → ℕ → Type 0
HasByte (err why) b = ⊥
HasByte (ok s) b = (s.offset ≤ b) × (b < s.offset + s.slice_size)

-- A buffer of the rank itself: chunks from `index` of the buffer of a type
abbrev pub local_buffer : String → ℕ → ℕ → Buffer
local_buffer word index count = record {
  type = some word;
  buffer_id = none;
  switch_channel_id = none;
  index = index;
  size = count;
}

-- What is known of a loaded plan and of a buffer of `count` chunks from `index` of a message of `n`
-- chunks that `slices` thread blocks share.
pub record IsShared (p : Plan) (size n index count slices : ℕ) : Type 0 where
  pub checked : check_message_size p ≡ ok tt
  pub picked : get_size_and_chunks p p.input_size p.output_size ≡ ok (size, n)
  pub some_bytes : 0 < size
  pub small : size < 2 ^ 32
  pub inside : index + count ≤ n
  pub sliceable : IsSliceable p (count * (size / n)) slices

module _ (x : Context) (tb : ℕ) (channel : ChannelType) (word : String) (t : BufferType) where
  setup_buffer-local :
      (size n index count slices j : ℕ)
      → convert_to_buffer_type word ≡ ok t
      → is_scratch t ≡ false
      → IsShared x.plan size n index count slices
      → j < slices
      → let cuts = cut x.plan (count * (size / n)) slices in
        setup_buffer x tb channel j slices (local_buffer word index count)
        ≡ ok record {
          ref = by_type t;
          nvls = none;
          offset = index * (size / n) + cuts j;
          slice_size = cuts (suc j) - cuts j;
        }
  unfolding setup_buffer
  setup_buffer-local size n index count slices j ht hs v hj =
      let p = x.plan in
      let chunks = loadable-IsChunked p size n v.checked v.picked v.some_bytes v.small in
      let whole = whole_chunks p size n chunks in
      let few : n < 2 ^ 32 =
        omega (arith, chunks.sliceable.enough, units_small p size n chunks.sliceable) in
      let index_fits : u32 index ≡ index = mod-eq_of_lt (omega (arith, v.inside)) in
      let count_fits : u32 count ≡ count = mod-eq_of_lt (omega (arith, v.inside)) in
      let buffer = count * (size / n) in
      let inside : index * (size / n) + buffer ≤ size =
        omega
          (arith, whole, mul-le-mul_right (size / n) v.inside, add-mul index count (size / n)) in
      let below = cut_le p buffer slices j v.sliceable (omega arith) in
      let below' = cut_le p buffer slices (suc j) v.sliceable hj in
      rw
        (
          ht,
          index_fits,
          count_fits,
          get_offset_other p p.input_size p.output_size index t hs,
          get_offset-check_message_size p size n index v.checked v.picked v.some_bytes v.small
              (omega (arith, v.inside)),
          get_buffer_size-check_message_size p size n index count v.checked v.picked v.some_bytes
              v.small v.inside,
          calc_offset_lem p buffer slices j v.sliceable (omega arith),
          calc_size_lem p buffer slices j v.sliceable hj,
        )
        (ap₂ (λ a b. ok record { ref = by_type t; nvls = none; offset = a; slice_size = b })
          (omega (arith, v.small)) (omega (arith, v.small)))

  HasByte-InSlice :
      (size n index count slices b j : ℕ)
      → convert_to_buffer_type word ≡ ok t
      → is_scratch t ≡ false
      → IsShared x.plan size n index count slices
      → j < slices
      → HasByte
          (setup_buffer x tb channel j slices (local_buffer word index count))
          (index * (size / n) + b)
        ↔ InSlice x.plan (count * (size / n)) slices b j
  HasByte-InSlice size n index count slices b j ht hs v hj =
      let buffer = count * (size / n) in
      let offset = calc_offset_lem x.plan buffer slices j v.sliceable (omega arith) in
      let length = calc_size_lem x.plan buffer slices j v.sliceable hj in
      rw (setup_buffer-local size n index count slices j ht hs v hj) (
        λ (lo, hi). (_, _, offset, length, omega arith, omega arith),
        λ (off, len, e, e', lo, hi).
            let off_eq = ok-inj (sym offset ∙ e) in
            let len_eq = ok-inj (sym length ∙ e') in (omega arith, omega arith),
      )

  -- The thread blocks of a group, each with its number in the group in `tbg_info`, share a buffer of
  -- the rank that is no scratch buffer, in a plan that passed the size check with a message below 4 GB:
  -- where the buffer has at least as many units of the alignment as there are thread blocks, every byte
  -- of its chunks belongs to the operation of exactly one of them.
  pub one_thread_block :
      (size n index count slices b : ℕ)
      → convert_to_buffer_type word ≡ ok t
      → is_scratch t ≡ false
      → IsShared x.plan size n index count slices
      → b < count * (size / n)
      → let byte_of = λ (j : ℕ).
        HasByte
          (setup_buffer x tb channel j slices (local_buffer word index count))
          (index * (size / n) + b) in
        (i : ℕ) × (i < slices) × byte_of i × ((j : ℕ) → j < slices → byte_of j → j ≡ i)
  one_thread_block size n index count slices b ht hs v hb =
      let (i, hi, here, only) = one_slice x.plan (count * (size / n)) slices b v.sliceable hb in
      (
        i,
        hi,
        (HasByte-InSlice size n index count slices b i ht hs v hi).1 here,
        λ j hj h. only j hj ((HasByte-InSlice size n index count slices b j ht hs v hj).0 h),
      )
