-- ===== src/Trigger/Layout.antt =====
-- The bit fields of a trigger hold what its constructor was given, and the reserved bit marks it as
-- written.
use mscclpp.Base.{◌<◌, ◌^◌, ◌+◌, ◌≡◌, ◌≢◌, refl, true, arith, bit_xor, bit_xor_top}
use mscclpp.Trigger.{Trigger, Request, asserted, make_trigger, fields, flip}

-- Where the assertions of the constructor hold, the bit fields of a trigger are the arguments of
-- its constructor: no field loses a bit or runs into another.
pub fields-make_trigger : (r : Request) → asserted r ≡ true → fields (make_trigger r) ≡ r
unfolding asserted fields make_trigger
fields-make_trigger r h = ground arith

-- What the FIFO needs of a trigger: its first word is not 0, and the top bit of its second is clear.
pub record IsPushable (t : Trigger) : Type 0 where
  pub nonzero : t.fst ≢ 0
  pub clear : t.snd < 2 ^ 63

pub make_trigger-IsPushable : (r : Request) → asserted r ≡ true → IsPushable (make_trigger r)
unfolding asserted make_trigger
make_trigger-IsPushable r h = ground arith

-- The device's flip sets the top bit, so that neither word of a stored trigger is 0, and the host's
-- flip takes it off again.
pub snd-flip : (t : Trigger) → t.snd < 2 ^ 63 → (flip t).snd ≡ t.snd + 2 ^ 63
unfolding flip
snd-flip t h = omega (arith, bit_xor_top 63 t.snd (omega arith))

pub flip-flip : (t : Trigger) → t.snd < 2 ^ 63 → flip (flip t) ≡ t
unfolding flip
flip-flip t h = λ i. record { fst = t.fst; snd = back i }
  where
    once : bit_xor t.snd (2 ^ 63) ≡ t.snd + 2 ^ 63
    once = omega (arith, bit_xor_top 63 t.snd (omega arith))

    back : bit_xor (bit_xor t.snd (2 ^ 63)) (2 ^ 63) ≡ t.snd
    back = rw once (omega (arith, bit_xor_top 63 (t.snd + 2 ^ 63) (omega arith)))

pub fst-flip : (t : Trigger) → (flip t).fst ≡ t.fst
unfolding flip
fst-flip t = refl
