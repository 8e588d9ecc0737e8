-- ===== src/Fifo/Delivery.antt =====
-- What a FIFO promises: triggers are delivered whole, in order and once, and none is overwritten.
mod Tests
use mscclpp.Base.{
  ℕ, suc, ◌-◌, Bool-cases, ◌+◌, ◌%◌, ◌≤◌, ◌<◌, ◌≡◌, ◌≢◌, ◌⊎◌, inl, inr, refl, sym, ◌∙◌, ap, arith,
  ◌^◌, ltb, lt→ltb, if◌then◌else◌, ◌||◌, ◌==◌, true, false, update_self,
}
use mscclpp.Trigger.{Trigger, flip}
use mscclpp.Trigger.Layout.{snd-flip, flip-flip, fst-flip}
use mscclpp.Fifo.{
  System, Stage, claimed, syncing, ready, half, written, cleared, unclaimed, cached, Host, polling,
  popping, got_fst, handling, clearing, slot, Reach, check, sync_load, sync_store, device_poll,
  poll_fst, poll_snd,
}
use mscclpp.Fifo.Invariant.{StageInv, newest, gone, HostInv, Inv, Reach-Inv, at_stage, is_claimed}

handled_count : ℕ → Host → ℕ
handled_count tail popping = suc tail
handled_count tail (clearing c) = suc tail
handled_count tail _ = tail

handled-newest :
    (s : System) (h : Host)
    → HostInv s.pushed s.stage s.tail s.handled h
    → s.handled ≡ newest s.pushed (handled_count s.tail h)
unfolding handled_count
handled-newest s polling v = v
handled-newest s popping v = v.0
handled-newest s (got_fst f) v = v.0
handled-newest s (handling t) v = v.0
handled-newest s (clearing c) v = v.0

-- The host has called the handler, and is in `pop`.
abbrev pub IsInPop : Host → Type 0
IsInPop popping = Unit
IsInPop (clearing c) = Unit
IsInPop _ = ⊥

handled_count-IsInPop :
    (tail : ℕ) (h : Host)
    → (handled_count tail h ≡ tail) × (¬ IsInPop h) ⊎ (handled_count tail h ≡ tail + 1) × IsInPop h
unfolding handled_count
handled_count-IsInPop tail polling = inl (refl, λ h. h)
handled_count-IsInPop tail popping = inr (omega arith, tt)
handled_count-IsInPop tail (got_fst f) = inl (refl, λ h. h)
handled_count-IsInPop tail (handling t) = inl (refl, λ h. h)
handled_count-IsInPop tail (clearing c) = inr (omega arith, tt)

-- In a FIFO of at least one slot, at any time the handler has been called with exactly the triggers of
-- the first `n` tickets, each once and in the order of the tickets, bit for bit as the device pushed
-- them; `n` is the tail, or, while the host is in `pop`, one more.
pub delivered_in_order :
    (size : ℕ) (s : System)
    → 0 < size
    → Reach size s
    → (n : ℕ) × (s.handled ≡ newest s.pushed n)
      × ((n ≡ s.tail) × (¬ IsInPop s.host) ⊎ (n ≡ s.tail + 1) × IsInPop s.host)
delivered_in_order size s h r =
    let v = Reach-Inv size s h r in
    (
      handled_count s.tail s.host,
      handled-newest s s.host v.host,
      handled_count-IsInPop s.tail s.host,
    )

-- In a FIFO of at least one slot, a push that is about to store, or between its two stores, has a
-- slot whose first word is 0, so that no trigger waits there, and a ticket less than `size` after
-- the tail.
pub stores_into_free_slot :
    (size : ℕ) (s : System) (k : ℕ)
    → 0 < size
    → Reach size s
    → (s.stage k ≡ ready) ⊎ (s.stage k ≡ half)
    → ((s.triggers (slot s k)).fst ≡ 0) × (k < s.tail + s.size)
stores_into_free_slot size s k h r (inl e) =
    let v = Reach-Inv size s h r in let (free, room) = at_stage s k ready e v in (free.1 room, room)
stores_into_free_slot size s k h r (inr e) =
    let v = Reach-Inv size s h r in
    let (free, room, _) = at_stage s k half e v in (free.1 room, room)

-- In a FIFO of at least one slot, when the push at the tail has stored its trigger and the host is
-- before `poll`, the two loads of the poll hand exactly that trigger to the handler.
pub poll_delivers :
    (size : ℕ) (s : System)
    → 0 < size
    → Reach size s
    → s.host ≡ polling
    → s.stage s.tail ≡ written
    → (f : ℕ) × ((poll_fst s).host ≡ got_fst f)
      × ((poll_snd (poll_fst s) f).host ≡ handling (s.pushed s.tail))
unfolding poll_fst poll_snd
poll_delivers size s h r e w =
    let v = Reach-Inv size s h r in
    let (_, _, stored) = at_stage s s.tail written w v in
    let ok = v.valid s.tail (is_claimed s s.tail v (ground arith)) in
    (
      _,
      refl,
      rw (stored, flip-flip (s.pushed s.tail) ok.clear)
          (ground (arith, fst-flip (s.pushed s.tail), snd-flip (s.pushed s.tail) ok.clear)),
    )

tests_agree : (size tail k : ℕ) → size ≤ k → ltb (k - size) tail ≡ ltb k (tail + size)
tests_agree size tail k h = ground arith

-- A push that waits in `sync` leaves the loop exactly when fewer than `size` tickets lie between the tail
-- and its own, and then stores the tail that it saw and is ready to store its trigger.
pub sync_waits_for_room :
    (size : ℕ) (s : System) (k : ℕ)
    → 0 < size
    → Reach size s
    → s.stage k ≡ syncing
    → ((sync_load s k).stage k ≡ (if ltb k (s.tail + s.size) then cached s.tail else syncing))
      × ((sync_store (sync_load s k) k s.tail).stage k ≡ ready)
unfolding sync_load sync_store
sync_waits_for_room size s k h r e = elim (Bool-cases (ltb (k - s.size) s.tail)) [
  | inl t ↦ (
    rw (t, ← same, t) (update_self s.stage k (cached s.tail)),
    update_self (sync_load s k).stage k ready,
  )
  | inr f ↦ (rw (f, ← same, f) e, update_self (sync_load s k).stage k ready)
]
  where
    same : ltb (k - s.size) s.tail ≡ ltb k (s.tail + s.size)
    same = tests_agree s.size s.tail k (at_stage s k syncing e (Reach-Inv size s h r)).1

passed :
    (size tail gone : ℕ) (cell trigger : Trigger) (k : ℕ) (st : Stage)
    → k < tail
    → StageInv size tail gone cell trigger k st
    → st ≡ cleared
passed size tail gone cell trigger k cleared h v = refl
passed size tail gone cell trigger k unclaimed h v = absurd (omega arith)
passed size tail gone cell trigger k claimed h v = absurd (omega arith)
passed size tail gone cell trigger k syncing h v = absurd (omega arith)
passed size tail gone cell trigger k (cached c) h v = absurd (omega arith)
passed size tail gone cell trigger k ready h v = absurd (omega arith)
passed size tail gone cell trigger k half h v = absurd (omega arith)
passed size tail gone cell trigger k written h v = absurd (omega arith)

-- The device's `poll` answers true for a ticket only when the host has handled and cleared its trigger.
pub poll_true_is_cleared :
    (size : ℕ) (s : System) (k val : ℕ)
    → 0 < size
    → Reach size s
    → val ≤ s.tail
    → (device_poll s k val).0 ≡ true
    → s.stage k ≡ cleared
unfolding device_poll
poll_true_is_cleared size s k val h r le t =
    passed s.size s.tail _ _ _ k (s.stage k) (ground arith) ((Reach-Inv size s h r).stages k)
