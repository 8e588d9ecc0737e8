-- ===== src/Port/Service/Pending.antt =====
-- `ProxyService` of src/core/port_channel.cc: what holds of the pending and the published positions
-- between any two steps.
use mscclpp.Base.{
  ℕ, ◌+◌, ◌≤◌, ◌<◌, ◌≡◌, refl, sym, ap, ◌∙◌, subst, ◌≢◌, ◌⊎◌, inl, inr, Bool, true, false, Option,
  none, some, List, ◌∷◌, ok, update, update_self, update_ne, arith, ℕ_discrete,
}
use mscclpp.Trigger.{Request}
use mscclpp.Port.Service.{
  Service, add_semaphore, add_memory, handle_and_pop, progressed_pos, published, progress_flushes,
  Event, synced, handled, added, progressed, event, Run, start, adds_semaphore, adds_memory,
  handles, progresses,
}
use mscclpp.Port.Service.Asked.{
  Asked, Inv, init-Inv, handle_and_pop-Flushing, Asked-before, Undrained-before, synced-inj,
}

-- The pending positions once a flush of `conn` was asked for at the tail.
above_update :
    (s : Service) (es : List Event) (conn c p : ℕ)
    → Inv s es
    → update s.pending_flush_pos conn (some s.tail) c ≡ some p
    → (p < s.tail + 1) × (s.flush_done c ≤ p)
above_update s es conn c p v h = elim (ℕ_discrete conn c) [
  | yes e ↦
      let h' : some s.tail ≡ some p =
        sym (update_self s.pending_flush_pos conn (some s.tail))
        ∙ ap (update s.pending_flush_pos conn (some s.tail)) e
        ∙ h in
      let same : s.tail ≡ p = cc in (omega arith, omega (arith, v.below c))
  | no ne ↦
      let (lt, le) =
        v.above c p (sym (update_ne s.pending_flush_pos conn c (some s.tail) ne) ∙ h) in
      (omega arith, le)
]

Asked-update :
    (s : Service) (es : List Event) (conn c p : ℕ)
    → Inv s es
    → Asked c p (synced conn s.tail ∷ es)
    → (p < s.flush_done c)
      ⊎ (q : ℕ) × (update s.pending_flush_pos conn (some s.tail) c ≡ some q) × (p ≤ q)
Asked-update s es conn c p v a = elim (Asked-before c p es (synced conn s.tail) a) [
  | inl e ↦
      let (ec, ep) = synced-inj conn s.tail c p e in
      inr (
        s.tail,
        subst (λ c. update s.pending_flush_pos conn (some s.tail) c ≡ some s.tail) ec
            (update_self s.pending_flush_pos conn (some s.tail)),
        omega arith,
      )
  | inr old ↦ elim (v.asked c p old) [
    | inl done ↦ inl done
    | inr (q, e, le) ↦ elim (ℕ_discrete conn c) [
      | yes ec ↦ inr (
        s.tail,
        subst (λ c. update s.pending_flush_pos conn (some s.tail) c ≡ some s.tail) ec
            (update_self s.pending_flush_pos conn (some s.tail)),
        let (lt, _) = v.above c q e in omega arith,
      )
      | no ne ↦ inr (q, update_ne s.pending_flush_pos conn c (some s.tail) ne ∙ e, le)
    ]
  ]
]

handled_ne : (c p : ℕ) → handled ≢ synced c p
handled_ne c p h = cc

handled-Inv :
    (s t : Service) (es : List Event) (r : Request)
    → handle_and_pop s r ≡ ok t
    → Inv s es
    → Inv t (event s r ∷ es)
handled-Inv s t es r h v =
    let f = handle_and_pop-Flushing s t r h in
    elim f.pending [
      | inr (e, pend) ↦
          rw (e, pend, f.flush_done, f.tail)
            record {
              above = λ c p h. let (lt, le) = v.above c p h in (omega arith, le);
              below = λ c. omega (arith, v.below c);
              asked = λ c p a. elim (Asked-before c p es handled a) [
                | inl x ↦ absurd (handled_ne c p x)
                | inr old ↦ v.asked c p old
              ];
              undrained = λ c p a. elim (Undrained-before c p es handled a) [
                | inl x ↦ absurd (handled_ne c p x)
                | inr (_, old) ↦ v.undrained c p old
              ];
            }
      | inl (conn, e, pend) ↦
          rw (e, pend, f.flush_done, f.tail)
            record {
              above = λ c p h. above_update s es conn c p v h;
              below = λ c. omega (arith, v.below c);
              asked = λ c p a. Asked-update s es conn c p v a;
              undrained = λ c p a. elim (Undrained-before c p es (synced conn s.tail) a) [
                | inl x ↦ let (_, ep) = synced-inj conn s.tail c p x in omega (arith, v.below c)
                | inr (_, old) ↦ v.undrained c p old
              ];
            }
    ]

module _ (tail done : ℕ) where
  kept : (o : Option ℕ) → published false o done ≡ done
  kept none = refl
  kept (some q) = refl

  published_above :
      (b : Bool) (o : Option ℕ) (p : ℕ)
      → ((q : ℕ) → o ≡ some q → (q < tail) × (done ≤ q))
      → progressed_pos b o ≡ some p
      → (p < tail) × (published b o done ≤ p)
  published_above true o p h e = absurd cc
  published_above false o p h e = rw (kept o) (h p e)

  published_below :
      (b : Bool) (o : Option ℕ)
      → ((q : ℕ) → o ≡ some q → (q < tail) × (done ≤ q))
      → done ≤ tail
      → published b o done ≤ tail
  published_below b none h le = le
  published_below true (some q) h le = let (lt, _) = h q refl in omega arith
  published_below false (some q) h le = le

  published_asked :
      (b : Bool) (o : Option ℕ) (p : ℕ)
      → ((q : ℕ) → o ≡ some q → (q < tail) × (done ≤ q))
      → (p < done) ⊎ (q : ℕ) × (o ≡ some q) × (p ≤ q)
      → (p < published b o done) ⊎ (q : ℕ) × (progressed_pos b o ≡ some q) × (p ≤ q)
  published_asked b none p h (inl lt) = inl lt
  published_asked b none p h (inr (q, e, le)) = absurd cc
  published_asked true (some q) p h (inl lt) = let (_, le) = h q refl in inl (omega arith)
  published_asked true (some q) p h (inr (q', e, le)) = let same : q ≡ q' = cc in inl (omega arith)
  published_asked false (some q) p h a = a

pub progressed-Inv :
    (s : Service) (es : List Event) (drained : ℕ → Bool)
    → Inv s es
    → Inv (progress_flushes drained s) (progressed drained ∷ es)
unfolding progress_flushes
progressed-Inv s es drained v = record {
  above = λ c p.
      published_above s.tail (s.flush_done c) (drained c) (s.pending_flush_pos c) p (v.above c);
  below = λ c.
      published_below s.tail (s.flush_done c) (drained c) (s.pending_flush_pos c) (v.above c)
        (v.below c);
  asked = λ c p a. elim (Asked-before c p es (progressed drained) a) [
    | inl x ↦ absurd cc
    | inr old ↦
        published_asked s.tail (s.flush_done c) (drained c) (s.pending_flush_pos c) p (v.above c)
          (v.asked c p old)
  ];
  undrained = λ c p a. elim (Undrained-before c p es (progressed drained) a) [
    | inl x ↦ absurd cc
    | inr (d, old) ↦
        rw (d, kept s.tail (s.flush_done c) (s.pending_flush_pos c)) (v.undrained c p old)
  ];
}

added-Inv :
    (s t : Service) (es : List Event)
    → t.pending_flush_pos ≡ s.pending_flush_pos
    → t.flush_done ≡ s.flush_done
    → t.tail ≡ s.tail
    → Inv s es
    → Inv t (added ∷ es)
added-Inv s t es ep ed et v =
    rw (ep, ed, et)
      record {
        above = v.above;
        below = v.below;
        asked = λ c p a. elim (Asked-before c p es added a) [
          | inl x ↦ absurd cc
          | inr old ↦ v.asked c p old
        ];
        undrained = λ c p a. elim (Undrained-before c p es added a) [
          | inl x ↦ absurd cc
          | inr (_, old) ↦ v.undrained c p old
        ];
      }

pub Run-Inv : (q : ℕ → Option ℕ) (s : Service) (es : List Event) → Run q s es → Inv s es
unfolding add_semaphore add_memory
Run-Inv q s es start = init-Inv q
Run-Inv q s es (adds_semaphore {s = u} {es = es'} conn r) =
    added-Inv u s es' refl refl refl (Run-Inv q u es' r)
Run-Inv q s es (adds_memory {s = u} {es = es'} memory r) =
    added-Inv u s es' refl refl refl (Run-Inv q u es' r)
Run-Inv q s es (handles {s = u} {es = es'} r run h) = handled-Inv u s es' r h (Run-Inv q u es' run)
Run-Inv q s es (progresses {s = u} {es = es'} drained r) =
    progressed-Inv u es' drained (Run-Inv q u es' r)
