-- ===== src/Base/Results.antt =====
-- Errors as values: the codes of include/mscclpp/errors.hpp, and the faults that C++ leaves undefined.
use Prim.Native.Nat.{ℕ, ◌/◌, ◌%◌}
use mathlib.Core.Path.{◌≡◌, refl}
use mathlib.Core.Logic.{◌⊎◌, inl, inr}
use mathlib.Core.Bool.{Bool, true, false}
use mscclpp.Base.Tests.{◌==◌, if◌then◌else◌}

-- `enum class ErrorCode`
pub data ErrorCode : Type 0 where
  system_error internal_error remote_error invalid_usage timeout aborted executor_error : ErrorCode

-- A `throw`, or an operation with undefined behaviour: an integer division by zero or an index past
-- the end of a vector.
pub data Error : Type 0 where
  thrown : ErrorCode → Error
  div_by_zero out_of_range : Error

pub data Result {ℓ} (A : Type ℓ) : Type ℓ where
  ok : (val : A) → Result A
  err : (why : Error) → Result A

infixl 5 ◌>>=◌ ◌>>◌
abbrev pub ◌>>=◌ {ℓ κ} : {A : Type ℓ} → {B : Type κ} → Result A → (A → Result B) → Result B
err why >>= next = err why
ok val >>= next = next val

-- `if (b) throw Error(.., code);`
abbrev pub throw_if : Bool → ErrorCode → Result (Unit {0})
throw_if true c = err (thrown c)
throw_if false c = ok tt

-- `/` and `%` on unsigned words.
abbrev pub div : ℕ → ℕ → Result ℕ
div a b = if b == 0 then err div_by_zero else ok (a / b)

abbrev pub mod_of : ℕ → ℕ → Result ℕ
mod_of a b = if b == 0 then err div_by_zero else ok (a % b)

pub Result-cases {ℓ} :
    {A : Type ℓ} (m : Result A) → ((a : A) × (m ≡ ok a)) ⊎ ((e : Error) × (m ≡ err e))
Result-cases (ok a) = inl (a, refl)
Result-cases (err e) = inr (e, refl)

abbrev pub ◌>>◌ {κ} : {B : Type κ} → Result (Unit {0}) → Result B → Result B
first >> second = first >>= λ _. second

-- What follows a successful step has run on its value.
pub >>=-eq-ok {ℓ κ} :
    {A : Type ℓ}
    → {B : Type κ} → {b : B} → (m : Result A) (f : A → Result B) → (m >>= f) ≡ ok b
    → (a : A) × (m ≡ ok a) × (f a ≡ ok b)
>>=-eq-ok (err why) f h = cc
>>=-eq-ok (ok val) f h = (val, refl, h)

pub ok-inj {ℓ} : {A : Type ℓ} {a b : A} → ok a ≡ ok b → a ≡ b
ok-inj e = cc
