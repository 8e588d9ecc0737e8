-- ===== src/Fifo/Invariant/Host.antt =====
-- The steps of the proxy thread keep the invariant.
use native.Mathlib.Nat.{add-mod_right}
use mscclpp.Base.{
  ℕ, suc, ◌+◌, ◌<◌, ◌≡◌, ◌≢◌, refl, ◌∙◌, ap, arith, update, update_self, update_ne, all_update,
  List, Bool-cases, inl, inr, ◌||◌, ◌==◌, ◌∷◌,
}
use mscclpp.Trigger.{Trigger, flip}
use mscclpp.Trigger.Layout.{flip-flip}
use mscclpp.Fifo.{
  System, Stage, unclaimed, claimed, syncing, ready, half, written, cleared, cached, Host, polling,
  popping, got_fst, handling, clearing, slot, poll_fst, poll_snd, handle, pop_clear, pop_advance,
}
use mscclpp.Fifo.Invariant.Defs.{
  StageInv, StageInv-store, HostInv, newest-suc, gone, Inv, StageInv-gone, StageInv-advance,
}
use mscclpp.Fifo.Invariant.Device.{is_claimed}

-- A slot in use at the tail holds a trigger that was pushed with that ticket.
used_slot :
    (size tail : ℕ) (cell trigger : Trigger) (st : Stage)
    → 0 < size
    → StageInv size tail tail cell trigger tail st
    → cell.fst ≢ 0
    → (st ≡ written) × (cell ≡ flip trigger)
used_slot size tail cell trigger unclaimed h v nz = absurd (nz (v.1 (omega arith)))
used_slot size tail cell trigger claimed h v nz = absurd (nz (v.1 (omega arith)))
used_slot size tail cell trigger syncing h v nz = absurd (nz (v.0.1 (omega arith)))
used_slot size tail cell trigger (cached c) h v nz = absurd (nz (v.0.1 (omega arith)))
used_slot size tail cell trigger ready h v nz = absurd (nz (v.0.1 (omega arith)))
used_slot size tail cell trigger half h v nz = absurd (nz (v.0.1 (omega arith)))
used_slot size tail cell trigger written h v nz = (refl, v.2)
used_slot size tail cell trigger cleared h v nz = absurd (omega (arith, v.0))

abbrev AtHost : System → Host → Type 0
AtHost s h = HostInv s.pushed s.stage s.tail s.handled h

-- The stages do not depend on the host but for what it is clearing.
Inv-host :
    (s : System) (h h' : Host) (handled : List Trigger)
    → s.host ≡ h
    → gone s.tail h' ≡ gone s.tail h
    → HostInv s.pushed s.stage s.tail handled h'
    → Inv s
    → Inv (record s { host = h'; handled = handled })
Inv-host s h h' handled e same hv v = record {
  some = v.some;
  order = v.order;
  behind = v.behind;
  fresh = v.fresh;
  valid = v.valid;
  stages = λ k. rw (same, ← e) (v.stages k);
  host = hv;
}

pub poll_fst-Inv : (s : System) → s.host ≡ polling → Inv s → Inv (poll_fst s)
unfolding poll_fst
poll_fst-Inv s e v =
    Inv-host s polling (got_fst _) s.handled e refl
      (
        rw e at v.host,
        λ nz.
            let used =
              used_slot s.size s.tail _ (s.pushed s.tail) (s.stage s.tail) v.some
                (rw e at v.stages s.tail) nz in
            (used.0, ap (λ c. c.fst) used.1),
      )
      v

pub poll_snd-Inv : (s : System) (f : ℕ) → s.host ≡ got_fst f → Inv s → Inv (poll_snd s f)
unfolding poll_snd
poll_snd-Inv s f e v = elim (Bool-cases ((f == 0) || (snd == 0))) [
  | inl t ↦ rw t (Inv-host s (got_fst f) polling s.handled e refl old.0 v)
  | inr t ↦ rw t (
      Inv-host s (got_fst f) (handling _) s.handled e refl
        (old.0, (old.1 (ground arith)).0, whole (ground arith)) v)
]
  where
    old : AtHost s (got_fst f)
    old = rw e at v.host

    snd : ℕ
    snd = (s.triggers (slot s s.tail)).snd

    whole : f ≢ 0 → flip (record { fst = f; snd = snd }) ≡ s.pushed s.tail
    whole nz =
        let (w, ef) = old.1 nz in
        let published : StageInv s.size s.tail (gone s.tail s.host) (s.triggers (slot s s.tail))
            (s.pushed s.tail) s.tail written =
          rw w at (v.stages s.tail) in
        let stored : record { fst = f; snd = snd } ≡ flip (s.pushed s.tail) =
          (λ i. record { fst = ef i; snd = (published.2 i).snd }) in
        ap flip stored
        ∙ flip-flip (s.pushed s.tail) (v.valid s.tail (is_claimed s s.tail v (ground arith))).clear

pub handle-Inv : (s : System) (t : Trigger) → s.host ≡ handling t → Inv s → Inv (handle s t)
unfolding handle
handle-Inv s t e v =
    let old : AtHost s (handling t) = rw e at v.host in
    Inv-host s (handling t) popping (t ∷ s.handled) e refl (rw newest-suc (ground arith), old.1) v

pub pop_clear-Inv : (s : System) → s.host ≡ popping → Inv s → Inv (pop_clear s)
unfolding pop_clear
pop_clear-Inv s e v = record {
  some = v.some;
  order = v.order;
  behind = v.behind;
  fresh = λ j h. update_ne s.stage s.tail j cleared (omega (arith, started)) ∙ v.fresh j h;
  valid = v.valid;
  stages =
      all_update
        (λ j st.
          StageInv s.size s.tail (suc s.tail) (update s.triggers (slot s s.tail) cell (slot s j))
            (s.pushed j) j st)
        s.stage s.tail cleared
        (omega arith, λ _ _. rw (update_self s.triggers (slot s s.tail) cell))
        (λ j ne.
          StageInv-store s.size s.tail (suc s.tail) s.tail j s.triggers cell _ _ (omega arith)
            (omega (arith, v.some)) ne
            (StageInv-gone s.size s.tail s.tail (s.triggers (slot s j)) (s.pushed j) j (s.stage j)
              (rw e at v.stages j)));
  host = (old.0, update_self s.stage s.tail cleared, refl);
}
  where
    old : AtHost s popping
    old = rw e at v.host

    cell : Trigger
    cell = record { fst = 0; snd = (s.triggers (slot s s.tail)).snd }

    started : s.tail < s.head
    started = is_claimed s s.tail v (ground arith)

pub pop_advance-Inv : (s : System) (c : ℕ) → s.host ≡ clearing c → Inv s → Inv (pop_advance s c)
unfolding pop_advance
pop_advance-Inv s c e v = rw old.2 (record {
  some = v.some;
  order = omega (arith, is_claimed s s.tail v (ground arith));
  behind = omega (arith, v.behind);
  fresh = v.fresh;
  valid = v.valid;
  stages = λ k.
      StageInv-advance s.size s.tail (s.triggers (slot s k)) (s.pushed k) k (s.stage k)
        (λ at. ap s.stage at ∙ old.1) (turn k) (rw e at v.stages k);
  host = rw next old.0;
})
  where
    old : AtHost s (clearing c)
    old = rw e at v.host

    gone_tail :
        StageInv s.size s.tail
          (suc s.tail)
          (s.triggers (slot s s.tail))
          (s.pushed s.tail)
          s.tail
          cleared
    gone_tail = rw old.1 at (rw e at v.stages s.tail)

    next : s.tail + 1 ≡ suc s.tail
    next = omega arith

    turn : (k : ℕ) → k ≡ s.tail + s.size → (s.triggers (slot s k)).fst ≡ 0
    turn k at =
        rw (at, add-mod_right s.tail s.size) (gone_tail.1 (omega arith) (omega (arith, v.some)))
