-- ===== src/Fifo/Invariant/Defs.antt =====
-- The invariant of the FIFO, ticket by ticket.
use native.Mathlib.Nat.{div-add-mod', lt_of_mul-lt-mul_right}
use mscclpp.Base.{
  ℕ, zero, suc, ◌+◌, ◌*◌, ◌/◌, ◌%◌, ◌≤◌, ◌<◌, ◌≡◌, ◌≢◌, refl, sym, ap, arith, List, [], ◌∷◌, update,
  update_ne, ℕ_discrete,
}
use mscclpp.Trigger.{Trigger, flip}
use mscclpp.Trigger.Layout.{IsPushable}
use mscclpp.Fifo.{
  System, Stage, unclaimed, claimed, syncing, ready, half, written, cleared, cached, Host, polling,
  popping, got_fst, handling, clearing, slot,
}

-- The push with ticket `k` has not published its trigger, and its slot is free when its turn comes.
abbrev pub IsFree : ℕ → ℕ → Trigger → ℕ → Type 0
IsFree size tail cell k = (tail ≤ k) × (k < tail + size → cell.fst ≡ 0)

-- What holds of ticket `k` at each stage; `gone` counts the triggers that the host has cleared.
abbrev pub StageInv : ℕ → ℕ → ℕ → Trigger → Trigger → ℕ → Stage → Type 0
StageInv size tail gone cell trigger k unclaimed = IsFree size tail cell k
StageInv size tail gone cell trigger k claimed = IsFree size tail cell k
StageInv size tail gone cell trigger k syncing = IsFree size tail cell k × (size ≤ k)
StageInv size tail gone cell trigger k (cached v) =
    IsFree size tail cell k × (v ≤ tail) × (k < v + size)
StageInv size tail gone cell trigger k ready = IsFree size tail cell k × (k < tail + size)
StageInv size tail gone cell trigger k half =
    IsFree size tail cell k × (k < tail + size) × (cell.snd ≡ (flip trigger).snd)
StageInv size tail gone cell trigger k written =
    (tail ≤ k) × (k < tail + size) × (cell ≡ flip trigger)
StageInv size tail gone cell trigger k cleared =
    (k < gone) × (tail ≤ k → k < tail + size → cell.fst ≡ 0)

-- The triggers of the first `n` tickets, the last first.
unfoldable pub newest : (ℕ → Trigger) → ℕ → List Trigger
newest pushed zero = []
newest pushed (suc n) = pushed n ∷ newest pushed n

abbrev pub gone : ℕ → Host → ℕ
gone tail (clearing c) = suc tail
gone tail _ = tail

abbrev pub HostInv : (ℕ → Trigger) → (ℕ → Stage) → ℕ → List Trigger → Host → Type 0
HostInv pushed stage tail handled polling = handled ≡ newest pushed tail
HostInv pushed stage tail handled (got_fst f) =
    (handled ≡ newest pushed tail)
    × (f ≢ 0 → (stage tail ≡ written) × (f ≡ (flip (pushed tail)).fst))
HostInv pushed stage tail handled (handling t) =
    (handled ≡ newest pushed tail) × (stage tail ≡ written) × (t ≡ pushed tail)
HostInv pushed stage tail handled popping =
    (handled ≡ newest pushed (suc tail)) × (stage tail ≡ written)
HostInv pushed stage tail handled (clearing c) =
    (handled ≡ newest pushed (suc tail)) × (stage tail ≡ cleared) × (c ≡ tail)

pub record Inv (s : System) : Type 0 where
  pub some : 0 < s.size
  pub order : s.tail ≤ s.head
  pub behind : s.tail_cache ≤ s.tail
  pub fresh : (k : ℕ) → s.head ≤ k → s.stage k ≡ unclaimed
  pub valid : (k : ℕ) → k < s.head → IsPushable (s.pushed k)
  pub stages :
      (k : ℕ)
      → StageInv s.size s.tail
          (gone s.tail s.host)
          (s.triggers (slot s k))
          (s.pushed k)
          k
          (s.stage k)
  pub host : HostInv s.pushed s.stage s.tail s.handled s.host

quotient_le : (size j k : ℕ) → k < j + size → j % size ≡ k % size → k / size ≤ j / size
quotient_le size j k h e = omega (arith, below)
  where
    below : k / size < suc (j / size)
    below = lt_of_mul-lt-mul_right size (omega (arith, div-add-mod' j size, div-add-mod' k size))

-- Two tickets of one window of `size` tickets have different slots.
pub window_inj :
    (size tail j k : ℕ)
    → tail ≤ j
    → j < tail + size
    → tail ≤ k
    → k < tail + size
    → j % size ≡ k % size
    → j ≡ k
window_inj size tail j k a b c d e =
    let same : j / size ≡ k / size =
      omega
        (arith, quotient_le size j k (omega arith) e, quotient_le size k j (omega arith) (sym e)) in
    omega (arith, div-add-mod' j size, div-add-mod' k size, ap (λ q. q * size) same)

IsFree-frame :
    (size tail : ℕ) (cell cell' : Trigger) (k : ℕ)
    → (tail ≤ k → k < tail + size → cell' ≡ cell)
    → IsFree size tail cell k
    → IsFree size tail cell' k
IsFree-frame size tail cell cell' k same v = (v.0, λ h. rw (same v.0 h) (v.1 h))

-- The slot of a ticket outside the window does not matter to it.
pub StageInv-frame :
    (size tail gone : ℕ) (cell cell' trigger : Trigger) (k : ℕ) (st : Stage)
    → (tail ≤ k → k < tail + size → cell' ≡ cell)
    → StageInv size tail gone cell trigger k st
    → StageInv size tail gone cell' trigger k st
StageInv-frame size tail gone cell cell' trigger k unclaimed same v =
    IsFree-frame size tail cell cell' k same v
StageInv-frame size tail gone cell cell' trigger k claimed same v =
    IsFree-frame size tail cell cell' k same v
StageInv-frame size tail gone cell cell' trigger k syncing same v =
    (IsFree-frame size tail cell cell' k same v.0, v.1)
StageInv-frame size tail gone cell cell' trigger k (cached c) same v =
    (IsFree-frame size tail cell cell' k same v.0, v.1, v.2)
StageInv-frame size tail gone cell cell' trigger k ready same v =
    (IsFree-frame size tail cell cell' k same v.0, v.1)
StageInv-frame size tail gone cell cell' trigger k half same v =
    (IsFree-frame size tail cell cell' k same v.0, v.1, rw (same v.0.0 v.1) v.2)
StageInv-frame size tail gone cell cell' trigger k written same v =
    (v.0, v.1, rw (same v.0 v.1) v.2)
StageInv-frame size tail gone cell cell' trigger k cleared same v =
    (v.0, λ lo hi. rw (same lo hi) (v.1 lo hi))

-- A store into the slot of ticket `k` of the window leaves the other tickets as they are.
pub StageInv-store :
    (size tail gone k j : ℕ) (cells : ℕ → Trigger) (c trigger : Trigger) (st : Stage)
    → tail ≤ k
    → k < tail + size
    → k ≢ j
    → StageInv size tail gone (cells (j % size)) trigger j st
    → StageInv size tail gone (update cells (k % size) c (j % size)) trigger j st
StageInv-store size tail gone k j cells c trigger st lo hi ne v =
    StageInv-frame size tail gone (cells (j % size)) _ trigger j st
      (λ lo' hi'.
        update_ne cells (k % size) (j % size) c
          (λ e. ne (window_inj size tail k j lo hi lo' hi' e)))
      v

-- Triggers that are yet to come do not matter to `newest`.
pub newest-update :
    (pushed : ℕ → Trigger) (n k : ℕ) (t : Trigger)
    → n ≤ k
    → newest (update pushed k t) n ≡ newest pushed n
unfolding newest
newest-update pushed zero k t h = refl
newest-update pushed (suc n) k t h = ground (arith, newest-update pushed n k t)

pub newest-suc : (pushed : ℕ → Trigger) (n : ℕ) → newest pushed (suc n) ≡ pushed n ∷ newest pushed n
unfolding newest
newest-suc pushed n = refl

pub StageInv-gone :
    (size tail gone : ℕ) (cell trigger : Trigger) (k : ℕ) (st : Stage)
    → StageInv size tail gone cell trigger k st
    → StageInv size tail (suc gone) cell trigger k st
StageInv-gone size tail gone cell trigger k cleared v = (omega (arith, v.0), v.1)
StageInv-gone size tail gone cell trigger k unclaimed v = v
StageInv-gone size tail gone cell trigger k claimed v = v
StageInv-gone size tail gone cell trigger k syncing v = v
StageInv-gone size tail gone cell trigger k (cached c) v = v
StageInv-gone size tail gone cell trigger k ready v = v
StageInv-gone size tail gone cell trigger k half v = v
StageInv-gone size tail gone cell trigger k written v = v

-- When the tail moves on, its old slot comes free for the ticket one round later.
IsFree-advance :
    (size tail : ℕ) (cell : Trigger) (k : ℕ)
    → k ≢ tail
    → (k ≡ tail + size → cell.fst ≡ 0)
    → IsFree size tail cell k
    → IsFree size (tail + 1) cell k
IsFree-advance size tail cell k ne turn v = (
  omega (arith, v.0),
  λ h. elim (ℕ_discrete k (tail + size)) [ yes e ↦ turn e | no other ↦ v.1 (omega arith) ],
)

pub StageInv-advance :
    (size tail : ℕ) (cell trigger : Trigger) (k : ℕ) (st : Stage)
    → (k ≡ tail → st ≡ cleared)
    → (k ≡ tail + size → cell.fst ≡ 0)
    → StageInv size tail (suc tail) cell trigger k st
    → StageInv size (tail + 1) (tail + 1) cell trigger k st
StageInv-advance size tail cell trigger k cleared old turn v =
    (omega (arith, v.0), λ lo. absurd (omega (arith, v.0)))
StageInv-advance size tail cell trigger k unclaimed old turn v =
    IsFree-advance size tail cell k (λ e. ground (arith, old e)) turn v
StageInv-advance size tail cell trigger k claimed old turn v =
    IsFree-advance size tail cell k (λ e. ground (arith, old e)) turn v
StageInv-advance size tail cell trigger k syncing old turn v =
    (IsFree-advance size tail cell k (λ e. ground (arith, old e)) turn v.0, v.1)
StageInv-advance size tail cell trigger k (cached c) old turn v =
    (IsFree-advance size tail cell k (λ e. ground (arith, old e)) turn v.0, omega (arith, v.1), v.2)
StageInv-advance size tail cell trigger k ready old turn v =
    (IsFree-advance size tail cell k (λ e. ground (arith, old e)) turn v.0, omega (arith, v.1))
StageInv-advance size tail cell trigger k half old turn v =
    (IsFree-advance size tail cell k (λ e. ground (arith, old e)) turn v.0, omega (arith, v.1), v.2)
StageInv-advance size tail cell trigger k written old turn v =
    (omega (arith, v.0, not_tail), omega (arith, v.1), v.2)
  where
    not_tail : k ≢ tail
    not_tail e = ground (arith, old e)
