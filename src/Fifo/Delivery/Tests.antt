-- ===== src/Fifo/Delivery/Tests.antt =====
-- A FIFO of one slot: one push through to the handler, and a second that waits for it.
use mscclpp.Base.{◌⊎◌, ℕ, ◌+◌, ◌<◌, ◌≡◌, inl, refl, arith, [], ◌∷◌, ℕ_discrete}
use mscclpp.Trigger.{Trigger, flip}
use mscclpp.Fifo.{
  System, got_fst, handling, slot, init, Reach, start, later, claims, checks, stores_snd,
  stores_fst, polls_fst, polls_snd, handles, clears, advances, claim, check, store_snd, store_fst,
  poll_fst, poll_snd, handle, pop_clear, pop_advance,
}
use mscclpp.Fifo.Invariant.{newest}
use mscclpp.Fifo.Delivery.{IsInPop, delivered_in_order, stores_into_free_slot, poll_delivers}

abbrev first : Trigger
first = record { fst = 7; snd = 5 }

abbrev second : Trigger
second = record { fst = 8; snd = 6 }

-- The first push has its slot, and the second waits in `sync`.
abbrev waiting : System
waiting = check (claim (check (claim (init 1) first) 0) second) 1

waiting-Reach : Reach 1 waiting
unfolding init claim check ℕ_discrete
waiting-Reach =
    later
      (later (later (later start (claims first (omega arith))) (checks 0 refl))
        (claims second (omega arith)))
      (checks 1 refl)

-- The first push has stored its trigger.
abbrev stored : System
stored = store_fst (store_snd waiting 0) 0

stored-Reach : Reach 1 stored
unfolding init claim check store_snd store_fst ℕ_discrete
stored-Reach = later (later waiting-Reach (stores_snd 0 refl)) (stores_fst 0 refl)

-- The handler has been called with it.
abbrev done : System
done = handle (poll_snd (poll_fst stored) 7) first

done-Reach : Reach 1 done
unfolding init claim check store_snd store_fst poll_fst poll_snd flip ℕ_discrete
done-Reach =
    later (later (later stored-Reach (polls_fst refl)) (polls_snd 7 refl)) (handles first refl)

done_result : done.handled ≡ first ∷ []
unfolding init claim check store_snd store_fst handle poll_snd poll_fst
done_result = refl

delivered_in_order_example :
    (n : ℕ) × (done.handled ≡ newest done.pushed n)
    × ((n ≡ done.tail) × (¬ IsInPop done.host) ⊎ (n ≡ done.tail + 1) × IsInPop done.host)
delivered_in_order_example = delivered_in_order 1 done (omega arith) done-Reach

stores_into_free_slot_example :
    ((waiting.triggers (slot waiting 0)).fst ≡ 0) × (0 < waiting.tail + waiting.size)
unfolding init claim check ℕ_discrete
stores_into_free_slot_example =
    stores_into_free_slot 1 waiting 0 (omega arith) waiting-Reach (inl refl)

poll_delivers_example :
    (f : ℕ) × ((poll_fst stored).host ≡ got_fst f)
    × ((poll_snd (poll_fst stored) f).host ≡ handling (stored.pushed stored.tail))
unfolding init claim check store_snd store_fst ℕ_discrete
poll_delivers_example = poll_delivers 1 stored (omega arith) stored-Reach refl refl

-- The slot is free again.
abbrev popped : System
popped = pop_advance (pop_clear done) 0

popped-Reach : Reach 1 popped
unfolding init claim check store_snd store_fst poll_fst poll_snd handle pop_clear ℕ_discrete
popped-Reach = later (later done-Reach (clears refl)) (advances 0 refl)
