-- ===== src/Communicator/Futures/Invariant.antt =====
-- src/core/communicator.cc: the futures that are ready are the first ones, with the messages taken so
-- far.
use mscclpp.Base.{
  inl, inr, true, false, Bool, Bool-cases, ==_iff, ◌==◌, ℕ, zero, suc, ◌+◌, ◌<◌, ◌≤◌, ◌≡◌, ◌≢◌,
  refl, sym, ap, ◌∙◌, true, false, List, [], ◌∷◌, ◌++◌, Option, none, some, update, all_update,
  length, length-append, get_elem?, get_elem?-append_last, get_elem?-append_lt, get_elem?-lt,
  dec_lt, arith,
}
use mscclpp.Communicator.Futures.{
  Futures, is_ready, last_unready, get_last_recv_item, make_future, clear_if, cleanup_unless,
}

-- The entry of `lastRecvItems_`: none when all futures are ready, else one of them, and the last unless
-- all are ready.
abbrev pub IsLast : ℕ → ℕ → Option ℕ → Type 0
IsLast ready made none = made ≤ ready
IsLast ready made (some j) = (j < made) × (ready < made → j + 1 ≡ made)

-- What the item of future `i` waits for: the one before, unless all before are ready.
abbrev pub Follows : ℕ → ℕ → Option ℕ → Type 0
Follows ready i none = i ≤ ready
Follows ready i (some j) = j + 1 ≡ i

Follows-mono : (r r' i : ℕ) (o : Option ℕ) → r ≤ r' → Follows r i o → Follows r' i o
Follows-mono r r' i none le h = omega arith
Follows-mono r r' i (some j) le h = h

IsLast-mono : (ready made : ℕ) (o : Option ℕ) → IsLast ready made o → IsLast (ready + 1) made o
IsLast-mono ready made none h = omega arith
IsLast-mono ready made (some j) (lt, h) = (lt, λ less. h (omega arith))

-- The future that has become ready is cleared.
clear_if-IsLast :
    (ready made i : ℕ) (o : Option ℕ)
    → ready ≡ i
    → i < made
    → IsLast ready made o
    → IsLast (ready + 1) made (clear_if o i)
clear_if-IsLast ready made i none e lt h = omega arith
clear_if-IsLast ready made i (some j) e lt (hj, h) = elim (Bool-cases (j == i)) [
  | inl same ↦ let here : j ≡ i = (==_iff j i).0 same in rw same (omega (arith, h (omega arith)))
  | inr other ↦ rw other (IsLast-mono ready made (some j) (hj, h))
]

module _ {M : Type 0} where
  -- The messages `taken` are the values of the first futures.
  pub record Inv (s : Futures M) (taken : List M) : Type 0 where
    pub some_made : length taken ≤ s.made
    pub value : (i : ℕ) → i < s.made → (s.items i).value ≡ get_elem? taken i
    pub follows : (i : ℕ) → i < s.made → Follows (length taken) i (s.items i).last_recv_item
    pub last : IsLast (length taken) s.made s.last

  get_elem?-ge : (xs : List M) (i : ℕ) → length xs ≤ i → get_elem? xs i ≡ none
  get_elem?-ge [] i h = refl
  get_elem?-ge (x ∷ xs) zero h = absurd (omega arith)
  get_elem?-ge (x ∷ xs) (suc i) h = get_elem?-ge xs i (omega arith)

  get_elem?-append_ne :
      (xs : List M) (m : M) (i : ℕ) → length xs ≢ i → get_elem? (xs ++ (m ∷ [])) i ≡ get_elem? xs i
  get_elem?-append_ne xs m i ne = elim (dec_lt i (length xs)) [
    | yes h ↦ get_elem?-append_lt xs (m ∷ []) i h
    | no h ↦
        let n = length-append xs (m ∷ []) in
        get_elem?-ge (xs ++ (m ∷ [])) i (omega (arith, n)) ∙ sym (get_elem?-ge xs i (omega arith))
  ]

  -- `cleanup` changes the entry of `lastRecvItems_` alone.
  pub cleanup-rest :
      (s : Futures M) (i : ℕ) (thrown : Bool)
      → ((cleanup_unless thrown i s).inbox ≡ s.inbox) × ((cleanup_unless thrown i s).made ≡ s.made)
  cleanup-rest s i true = (refl, refl)
  cleanup-rest s i false = (refl, refl)

  cleanup-Inv :
      (s : Futures M) (taken : List M) (i : ℕ) (thrown : Bool)
      → length taken ≡ i + 1
      → i < s.made
      → IsLast i s.made s.last
      → Inv s taken
      → Inv (cleanup_unless thrown i s) taken
  cleanup-Inv s taken i true e hi h v = v
  cleanup-Inv s taken i false e hi h v = record {
    some_made = v.some_made;
    value = v.value;
    follows = v.follows;
    last = rw e (clear_if-IsLast i s.made i s.last refl hi h);
  }

  pub func_and_cleanup-Inv :
      (s : Futures M) (taken ms : List M) (m : M) (i : ℕ)
      → (thrown : Bool) → Inv s taken
      → length taken ≡ i
      → i < s.made
      → Inv
          (cleanup_unless thrown i record s {
            items =
                update s.items i
                  (record { last_recv_item = (s.items i).last_recv_item; value = some m });
            inbox = ms;
          })
          (taken ++ (m ∷ []))
  func_and_cleanup-Inv s taken ms m i thrown v e hi =
      let n = length-append taken (m ∷ []) in
      let old : IsLast i s.made s.last = rw (sym e) (v.last) in
      cleanup-Inv
        record s {
          items =
              update s.items i
                (record { last_recv_item = (s.items i).last_recv_item; value = some m });
          inbox = ms;
        }
        (taken ++ (m ∷ [])) i thrown (omega (arith, n)) hi old
        record {
          some_made = omega (arith, n);
          value =
              all_update (λ j x. j < s.made → x.value ≡ get_elem? (taken ++ (m ∷ [])) j) s.items i
                (record { last_recv_item = (s.items i).last_recv_item; value = some m })
                (λ _.
                  sym (ap (get_elem? (taken ++ (m ∷ []))) (sym e) ∙ get_elem?-append_last taken m))
                (λ j ne hj.
                  v.value j hj ∙ sym (get_elem?-append_ne taken m j (λ h. ne (sym e ∙ h))));
          follows =
              all_update
                (λ j x. j < s.made → Follows (length (taken ++ (m ∷ []))) j x.last_recv_item)
                s.items i (record { last_recv_item = (s.items i).last_recv_item; value = some m })
                (λ h.
                  Follows-mono (length taken) (length (taken ++ (m ∷ []))) i
                    (s.items i).last_recv_item (omega (arith, n)) (v.follows i h))
                (λ j ne hj.
                  Follows-mono (length taken) (length (taken ++ (m ∷ []))) j
                    (s.items j).last_recv_item (omega (arith, n)) (v.follows j hj));
          last = rw n (IsLast-mono (length taken) s.made s.last (v.last));
        }

  pub ready-lt :
      (s : Futures M) (taken : List M) (i : ℕ)
      → Inv s taken
      → i < s.made
      → is_ready s i ≡ true
      → i < length taken
  ready-lt s taken i v hi h = elim (dec_lt i (length taken)) [
    | yes lt ↦ lt
    | no ge ↦
        let e : (s.items i).value ≡ none = v.value i hi ∙ get_elem?-ge taken i (omega arith) in
        let h' = rw e at h in absurd cc
  ]

  pub lt-ready :
      (s : Futures M) (taken : List M) (i : ℕ)
      → Inv s taken
      → i < s.made
      → i < length taken
      → is_ready s i ≡ true
  lt-ready s taken i v hi lt = let (m, e) = get_elem?-lt taken i lt in rw (v.value i hi ∙ e) refl

  pub ge-ready :
      (s : Futures M) (taken : List M) (i : ℕ)
      → Inv s taken
      → i < s.made
      → length taken ≤ i
      → is_ready s i ≡ false
  ge-ready s taken i v hi ge = rw (v.value i hi ∙ get_elem?-ge taken i ge) refl

  -- A new future waits for the last one, if that is not ready.
  last-Follows :
      (s : Futures M) (taken : List M) (o : Option ℕ)
      → Inv s taken
      → IsLast (length taken) s.made o
      → Follows (length taken) s.made (last_unready s o)
  last-Follows s taken none v h = h
  last-Follows s taken (some j) v (hj, h) = elim (dec_lt j (length taken)) [
    | yes old ↦ rw (lt-ready s taken j v hj old) (elim (dec_lt (length taken) s.made) [
      | yes less ↦ absurd (omega (arith, h less))
      | no all ↦ omega arith
    ])
    | no new ↦ rw (ge-ready s taken j v hj (omega arith)) (h (omega arith))
  ]

  pub make-Inv : (s : Futures M) (taken : List M) → Inv s taken → Inv (make_future s) taken
  unfolding make_future get_last_recv_item
  make-Inv s taken v = record {
    some_made = omega (arith, v.some_made);
    value =
        all_update (λ j x. j < s.made + 1 → x.value ≡ get_elem? taken j) s.items s.made
          (record { last_recv_item = last_unready s s.last; value = none })
          (λ _. sym (get_elem?-ge taken s.made v.some_made)) (λ j ne hj. v.value j (omega arith));
    follows =
        all_update (λ j x. j < s.made + 1 → Follows (length taken) j x.last_recv_item) s.items
          s.made (record { last_recv_item = last_unready s s.last; value = none })
          (λ _. last-Follows s taken s.last v (v.last)) (λ j ne hj. v.follows j (omega arith));
    last = (omega arith, λ less. refl);
  }
