-- ===== src/Communicator/Futures/Waiting.antt =====
-- src/core/communicator.cc: a call of `wait` runs the futures before its own.
use mathlib.Core.List.{append_assoc}
use mscclpp.Base.{
  update, Bool, ℕ, zero, suc, ◌+◌, ◌<◌, ◌≤◌, max, ◌≡◌, refl, ap, ◌∙◌, List, [], ◌∷◌, ◌++◌, Option,
  none, some, length, length-append, dec_lt, arith,
}
use mscclpp.Communicator.Futures.{Futures, func_and_cleanup, run_after, wait_last, wait}
use mscclpp.Communicator.Futures.Invariant.{
  Follows, Inv, lt-ready, ge-ready, func_and_cleanup-Inv, cleanup-rest,
}

module _ {M : Type 0} (throws : M → Bool) where
  -- A call of `wait` for future `i` returns when enough messages have come; then the first `i + 1`
  -- futures are ready, and no message is lost.
  pub record Waited (i : ℕ) (s t : Futures M) (taken taken' : List M) : Type 0 where
    pub inv : Inv t taken'
    pub same : taken' ++ t.inbox ≡ taken ++ s.inbox
    pub made : t.made ≡ s.made
    pub reached : i < length taken'
    pub short : length taken' ≤ max (length taken) (i + 1)

  func_and_cleanup-Waited :
      (s : Futures M) (taken : List M) (i : ℕ) (inbox : List M)
      → s.inbox ≡ inbox
      → Inv s taken
      → length taken ≡ i
      → i < s.made
      → 0 < length inbox
      → (t : Futures M) × (taken' : List M) × (func_and_cleanup throws i s inbox ≡ some t)
        × Waited i s t taken taken'
  func_and_cleanup-Waited s taken i [] eq v e hi h = absurd (omega arith)
  func_and_cleanup-Waited s taken i (m ∷ ms) eq v e hi h =
      let received : Futures M = record s {
        items =
            update s.items i
              (record { last_recv_item = (s.items i).last_recv_item; value = some m });
        inbox = ms;
      } in
      let (inbox_kept, made_kept) = cleanup-rest received i (throws m) in
      let n = length-append taken (m ∷ []) in
      (
        _,
        taken ++ (m ∷ []),
        refl,
        record {
          inv = func_and_cleanup-Inv s taken ms m i (throws m) v e hi;
          same =
              rw eq
                (ap (λ l. (taken ++ (m ∷ [])) ++ l) inbox_kept ∙ append_assoc taken (m ∷ []) ms);
          made = made_kept;
          reached = omega (arith, n);
          short = omega (arith, n);
        },
      )

  abbrev pub Waits : ℕ → Futures M → List M → Option (Futures M) → Type 0
  Waits i s taken outcome =
      (t : Futures M) × (taken' : List M) × (outcome ≡ some t) × Waited i s t taken taken'

  -- The function of a future, when what it waits for first returns.
  run-Waits :
      (i : ℕ) (s : Futures M) (taken : List M) (earlier : ℕ → Option (Futures M)) (last : Option ℕ)
      → Inv s taken
      → i < s.made
      → i < length (taken ++ s.inbox)
      → length taken ≤ i
      → Follows (length taken) i last
      → ((j : ℕ) → j + 1 ≡ i → Waits j s taken (earlier j))
      → Waits i s taken (run_after throws i (wait_last earlier s last))
  run-Waits i s taken earlier none v hi enough new follows rest =
      func_and_cleanup-Waited s taken i s.inbox refl v (omega arith) hi
        (omega (arith, length-append taken s.inbox))
  run-Waits i s taken earlier (some j) v hi enough new follows rest =
      let (t, taken', e, w) = rest j follows in
      let total : length (taken' ++ t.inbox) ≡ length (taken ++ s.inbox) = ap length w.same in
      let reached = w.reached in
      let short = w.short in
      let here : length taken' ≡ i = omega arith in
      let (u, taken'', e', w') =
        func_and_cleanup-Waited t taken' i t.inbox refl w.inv here (rw (w.made) hi)
          (omega (arith, length-append taken' t.inbox, total)) in
      (
        u,
        taken'',
        rw e e',
        record {
          inv = w'.inv;
          same = w'.same ∙ w.same;
          made = w'.made ∙ w.made;
          reached = w'.reached;
          short = omega (arith, w'.short);
        },
      )

  pub wait-Waits :
      (fuel i : ℕ) (s : Futures M) (taken : List M)
      → i < fuel
      → Inv s taken
      → i < s.made
      → i < length (taken ++ s.inbox)
      → Waits i s taken (wait throws fuel i s)
  unfolding wait
  wait-Waits zero i s taken lt v hi enough = absurd (omega arith)
  wait-Waits (suc fuel) i s taken lt v hi enough = elim (dec_lt i (length taken)) [
    | yes old ↦ rw (lt-ready s taken i v hi old) (
      s,
      taken,
      refl,
      record { inv = v; same = refl; made = refl; reached = old; short = omega arith },
    )
    | no new ↦ rw (ge-ready s taken i v hi (omega arith)) (
        run-Waits i s taken (λ j. wait throws fuel j s) (s.items i).last_recv_item v hi enough
          (omega arith) (v.follows i hi)
          (λ j e. wait-Waits fuel j s taken (omega arith) v (omega arith) (omega arith)))
  ]

  func_and_cleanup-blocks :
      (i : ℕ) (s : Futures M) (inbox : List M)
      → length inbox ≡ 0
      → func_and_cleanup throws i s inbox ≡ none
  func_and_cleanup-blocks i s [] e = refl
  func_and_cleanup-blocks i s (m ∷ ms) e = absurd (omega arith)

  -- The same when no message is left for a future.
  run-blocks :
      (fuel i : ℕ) (s : Futures M) (taken : List M) (last : Option ℕ)
      → i < suc fuel
      → Inv s taken
      → i < s.made
      → length (taken ++ s.inbox) ≤ i
      → length taken ≤ i
      → Follows (length taken) i last
      → ((j : ℕ) → j + 1 ≡ i → length (taken ++ s.inbox) ≤ j → wait throws fuel j s ≡ none)
      → run_after throws i (wait_last (λ j. wait throws fuel j s) s last) ≡ none
  run-blocks fuel i s taken none lt v hi few new follows rest =
      func_and_cleanup-blocks i s s.inbox (omega (arith, length-append taken s.inbox))
  run-blocks fuel i s taken (some j) lt v hi few new follows rest =
      elim (dec_lt j (length (taken ++ s.inbox))) [
        | yes h ↦
            let (t, taken', e, w) = wait-Waits fuel j s taken (omega arith) v (omega arith) h in
            let total : length (taken' ++ t.inbox) ≡ length (taken ++ s.inbox) = ap length w.same in
            let reached = w.reached in
            rw e (
              func_and_cleanup-blocks i t t.inbox
                (omega (arith, length-append taken' t.inbox, total)))
        | no h ↦ rw (rest j follows (omega arith)) refl
      ]

  pub wait-blocks :
      (fuel i : ℕ) (s : Futures M) (taken : List M)
      → i < fuel
      → Inv s taken
      → i < s.made
      → length (taken ++ s.inbox) ≤ i
      → wait throws fuel i s ≡ none
  unfolding wait
  wait-blocks zero i s taken lt v hi few = refl
  wait-blocks (suc fuel) i s taken lt v hi few =
      let n = length-append taken s.inbox in
      rw (ge-ready s taken i v hi (omega (arith, n))) (
        run-blocks fuel i s taken (s.items i).last_recv_item lt v hi few (omega (arith, n))
          (v.follows i hi)
          (λ j e few'. wait-blocks fuel j s taken (omega arith) v (omega arith) few'))
