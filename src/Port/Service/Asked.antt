-- ===== src/Port/Service/Asked.antt =====
-- `ProxyService` of src/core/port_channel.cc: the flushes that were asked for, and what a handled trigger
-- does to the pending ones.
use mscclpp.Base.{
  ℕ, ◌+◌, ◌≤◌, ◌<◌, ◌≡◌, refl, sym, ap, ap₂, ◌∙◌, ◌⊎◌, inl, inr, Bool, true, false, Option, some,
  List, [], ◌∷◌, ok, >>=-eq-ok, update, Bool-cases, arith,
}
use mscclpp.Trigger.{Request, trigger_sync}
use mscclpp.Port.Service.{
  Service, init, has, is_full, finish, handle_trigger, handle_and_pop, Event, synced, handled,
  progressed, event, event_of,
}
use mscclpp.Port.Service.Effects.{ok-inj, handle_trigger-Handled, Handled-Same}

-- A flush of a connection was asked for at a position.
pub data Asked (conn pos : ℕ) : List Event → Type 0 where
  now : (es : List Event) → Asked conn pos (synced conn pos ∷ es)
  before : (e : Event) (es : List Event) → Asked conn pos es → Asked conn pos (e ∷ es)

-- Whether an event finds the connection drained.
abbrev pub drains : ℕ → Event → Bool
drains conn (progressed drained) = drained conn
drains conn _ = false

-- A flush was asked for, and the connection was not found drained since.
pub data Undrained (conn pos : ℕ) : List Event → Type 0 where
  now : (es : List Event) → Undrained conn pos (synced conn pos ∷ es)
  before :
      (e : Event) (es : List Event)
      → drains conn e ≡ false
      → Undrained conn pos es
      → Undrained conn pos (e ∷ es)

-- The position that is pending for a connection is above all whose flush is published, and all asked
-- for are published or at most the pending one.
pub record Inv (s : Service) (es : List Event) : Type 0 where
  pub above : (c p : ℕ) → s.pending_flush_pos c ≡ some p → (p < s.tail) × (s.flush_done c ≤ p)
  pub below : (c : ℕ) → s.flush_done c ≤ s.tail
  pub asked :
      (c p : ℕ)
      → Asked c p es
      → (p < s.flush_done c) ⊎ (q : ℕ) × (s.pending_flush_pos c ≡ some q) × (p ≤ q)
  pub undrained : (c p : ℕ) → Undrained c p es → s.flush_done c ≤ p

-- What the end of the handler does to the pending flushes.
finish-pending :
    (s : Service) (conn : ℕ) (r : Request)
    → ((finish s conn r).flush_done ≡ s.flush_done)
      × ((finish s conn r).tail ≡ s.tail)
      × ((has r trigger_sync ≡ true)
            × ((finish s conn r).pending_flush_pos ≡ update s.pending_flush_pos conn (some s.tail))
          ⊎ (has r trigger_sync ≡ false)
            × ((finish s conn r).pending_flush_pos ≡ s.pending_flush_pos))
unfolding finish
finish-pending s conn r = elim (Bool-cases (has r trigger_sync)) [
  | inl t ↦ rw t (refl, refl, inl (refl, refl))
  | inr f ↦ elim (Bool-cases (is_full (s.max_write_queue_size conn) (s.inflight_requests conn))) [
    | inl t ↦ rw (f, t) (refl, refl, inr (refl, refl))
    | inr t ↦ rw (f, t) (refl, refl, inr (refl, refl))
  ]
]

pub init-Inv : (q : ℕ → Option ℕ) → Inv (init q) []
unfolding init
init-Inv q = record {
  above = λ c p h. absurd cc;
  below = λ c. omega arith;
  asked = λ c p a. elim a [ ];
  undrained = λ c p a. elim a [ ];
}

-- What a handled trigger does to the pending flushes, and the event it is.
pub record Flushing (s t : Service) (r : Request) : Type 0 where
  pub flush_done : t.flush_done ≡ s.flush_done
  pub tail : t.tail ≡ s.tail + 1
  pub pending :
      ((conn : ℕ) × (event s r ≡ synced conn s.tail)
        × (t.pending_flush_pos ≡ update s.pending_flush_pos conn (some s.tail)))
      ⊎ (event s r ≡ handled) × (t.pending_flush_pos ≡ s.pending_flush_pos)

pub handle_and_pop-Flushing :
    (s t : Service) (r : Request) → handle_and_pop s r ≡ ok t → Flushing s t r
unfolding handle_and_pop
handle_and_pop-Flushing s t r h =
    let (u, e, e') = >>=-eq-ok (handle_trigger s r) _ h in
    let v = handle_trigger-Handled s u r e in
    let m = Handled-Same s u r v in
    let (done, tail, pending) = finish-pending v.signaled v.conn r in
    let back : t ≡ record u { tail = u.tail + 1 } = sym (ok-inj _ t e') in
    record {
      flush_done =
          ap (λ x. x.flush_done) back ∙ ap (λ x. x.flush_done) v.result ∙ done ∙ m.flush_done;
      tail =
          ap (λ x. x.tail) back ∙ ap (λ x. x.tail + 1) v.result ∙ ap (λ x. x + 1) (tail ∙ m.tail);
      pending = elim pending [
        | inl (y, e) ↦ inl (
          v.conn,
          ap₂ (λ o b. event_of o b s.tail) v.found y,
          ap (λ x. x.pending_flush_pos) back
              ∙ ap (λ x. x.pending_flush_pos) v.result
              ∙ e
              ∙ ap₂ (λ f n. update f v.conn (some n)) m.pending_flush_pos m.tail,
        )
        | inr (y, e) ↦ inr (
          ap₂ (λ o b. event_of o b s.tail) v.found y,
          ap (λ x. x.pending_flush_pos) back
              ∙ ap (λ x. x.pending_flush_pos) v.result
              ∙ e
              ∙ m.pending_flush_pos,
        )
      ];
    }

pub Asked-before :
    (c p : ℕ) (es : List Event) (e : Event) → Asked c p (e ∷ es) → (e ≡ synced c p) ⊎ Asked c p es
Asked-before c p es e (now _) = inl refl
Asked-before c p es e (before _ _ a) = inr a

pub Undrained-before :
    (c p : ℕ) (es : List Event) (e : Event)
    → Undrained c p (e ∷ es)
    → (e ≡ synced c p) ⊎ (drains c e ≡ false) × Undrained c p es
Undrained-before c p es e (now _) = inl refl
Undrained-before c p es e (before _ _ d a) = inr (d, a)

pub synced-inj : (c p d q : ℕ) → synced c p ≡ synced d q → (c ≡ d) × (p ≡ q)
synced-inj c p d q h = (cc, cc)
