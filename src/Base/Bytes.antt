-- ===== src/Base/Bytes.antt =====
-- Bytes in memory: words as little-endian bytes, and the first bytes of a list.
use Prim.Native.Nat.{ℕ, zero, suc, ◌+◌, ◌*◌, ◌/◌, ◌%◌, ◌^◌, ◌<◌}
use mathlib.Core.Path.{◌≡◌, refl, ap}
use mathlib.Core.Option.{Option, none, some}
use mathlib.Core.List.{List, [], ◌∷◌, ◌++◌}
use native.Mathlib.Nat.{pow-suc}
use native.Mathlib.Omega.{arith}
use mscclpp.Base.Lists.{length}

-- The object representation of an unsigned word of `k` bytes
unfoldable pub word_bytes : ℕ → ℕ → List ℕ
word_bytes zero n = []
word_bytes (suc k) n = n % 256 ∷ word_bytes k (n / 256)

unfoldable pub bytes_word : List ℕ → ℕ
bytes_word [] = 0
bytes_word (b ∷ bs) = b + 256 * bytes_word bs

pub length-word_bytes : (k n : ℕ) → length (word_bytes k n) ≡ k
unfolding word_bytes
length-word_bytes zero n = refl
length-word_bytes (suc k) n = ap suc (length-word_bytes k (n / 256))

pub bytes_word-word_bytes : (k n : ℕ) → n < 256 ^ k → bytes_word (word_bytes k n) ≡ n
unfolding word_bytes bytes_word
bytes_word-word_bytes zero n h = omega arith
bytes_word-word_bytes (suc k) n h =
    let h' = rw (pow-suc 256 k) at h in
    let small : n / 256 < 256 ^ k = omega arith in
    let rest = bytes_word-word_bytes k (n / 256) small in rw rest omega arith

-- The first `k` bytes and the rest, if there are so many.
unfoldable pub split_bytes {ℓ} : {A : Type ℓ} → ℕ → List A → Option (List A × List A)
split_bytes zero bs = some ([], bs)
split_bytes (suc k) [] = none
split_bytes (suc k) (b ∷ bs) = elim (split_bytes k bs) [
  | none ↦ none
  | some (taken, rest) ↦ some (b ∷ taken, rest)
]

pub split_bytes-append {ℓ} :
    {A : Type ℓ} (xs ys : List A) → split_bytes (length xs) (xs ++ ys) ≡ some (xs, ys)
unfolding split_bytes
split_bytes-append [] ys = refl
split_bytes-append (x ∷ xs) ys = rw (split_bytes-append xs ys) refl
