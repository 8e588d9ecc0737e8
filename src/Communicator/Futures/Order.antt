-- ===== src/Communicator/Futures/Order.antt =====
-- src/core/communicator.cc: futures take the messages in the order in which they were made, however
-- they are waited for.
use mathlib.Core.List.{append_assoc}
use mscclpp.Base.{
  Bool, ℕ, ◌+◌, ◌<◌, ◌≤◌, ◌≡◌, ◌≢◌, refl, sym, ap, subst, ◌∙◌, ◌⊎◌, inl, inr, List, [], ◌∷◌, ◌++◌,
  none, some, some-inj, length, get_elem?, get_elem?-append_lt, dec_lt, arith,
}
use mscclpp.Communicator.Futures.{
  Futures, get_last_recv_item, make_future, wait, Reach, start, makes, arrives, waits,
}
use mscclpp.Communicator.Futures.Invariant.{Inv, make-Inv}
use mscclpp.Communicator.Futures.Waiting.{wait-Waits, wait-blocks}

module _ {M : Type 0} (throws : M → Bool) where
  make-inbox : (s : Futures M) → (make_future s).inbox ≡ s.inbox
  unfolding make_future get_last_recv_item
  make-inbox s = refl

  none_some : {t : Futures M} → none ≢ some t
  none_some e = cc

  record At (s : Futures M) (arrived : List M) : Type 0 where
    taken : List M
    inv : Inv s taken
    all_here : taken ++ s.inbox ≡ arrived

  Reach-At : (s : Futures M) (arrived : List M) → Reach throws s arrived → At s arrived
  Reach-At s arrived start = record {
    taken = [];
    inv = record {
      some_made = omega arith;
      value = λ i h. elim h [ ];
      follows = λ i h. elim h [ ];
      last = omega arith;
    };
    all_here = refl;
  }
  Reach-At s arrived (makes {s = t} r) =
      let a = Reach-At t arrived r in
      record {
        taken = a.taken;
        inv = make-Inv t a.taken a.inv;
        all_here = ap (λ l. a.taken ++ l) (make-inbox t) ∙ a.all_here;
      }
  Reach-At s arrived (arrives {s = t} {arrived = old} m r) =
      let a = Reach-At t old r in
      record {
        taken = a.taken;
        inv = record {
          some_made = a.inv.some_made;
          value = a.inv.value;
          follows = a.inv.follows;
          last = a.inv.last;
        };
        all_here = sym (append_assoc a.taken t.inbox (m ∷ [])) ∙ ap (λ l. l ++ (m ∷ [])) a.all_here;
      }
  Reach-At s arrived (waits {s = t} i hi r e) =
      let a = Reach-At t arrived r in
      elim (dec_lt i (length (a.taken ++ t.inbox))) [
        | yes h ↦
            let (u, taken', e', w) =
              wait-Waits throws (i + 1) i t a.taken (omega arith) a.inv hi h in
            let same : u ≡ s = some-inj (sym e' ∙ e) in
            subst (λ s. At s arrived) same
              record { taken = taken'; inv = w.inv; all_here = w.same ∙ a.all_here }
        | no h ↦
            let blocked =
              wait-blocks throws (i + 1) i t a.taken (omega arith) a.inv hi (omega arith) in
            absurd (none_some (sym blocked ∙ e))
      ]

  -- A call of `wait` for the future that was made as the i-th of its remote rank and tag returns just
  -- when more than `i` messages have come, and the future is then that of the i-th message, in whatever
  -- order the futures are made and waited for, and messages come, and whichever of them `func` throws on.
  pub recv_in_order :
      (s : Futures M) (arrived : List M) (i : ℕ)
      → Reach throws s arrived
      → i < s.made
      → (i < length arrived)
          × ((t : Futures M) × (wait throws (i + 1) i s ≡ some t)
              × ((t.items i).value ≡ get_elem? arrived i))
        ⊎ (length arrived ≤ i) × (wait throws (i + 1) i s ≡ none)
  recv_in_order s arrived i r hi =
      let a = Reach-At s arrived r in
      let total : length (a.taken ++ s.inbox) ≡ length arrived = ap length a.all_here in
      elim (dec_lt i (length arrived)) [
        | yes h ↦
            let (t, taken', e, w) =
              wait-Waits throws (i + 1) i s a.taken (omega arith) a.inv hi (omega arith) in
            inl (
              h,
              (
                t,
                e,
                w.inv.value i (rw (w.made) hi)
                    ∙ sym (get_elem?-append_lt taken' t.inbox i w.reached)
                    ∙ ap (λ l. get_elem? l i) (w.same ∙ a.all_here),
              ),
            )
        | no h ↦ inr (
          omega arith,
          wait-blocks throws (i + 1) i s a.taken (omega arith) a.inv hi (omega arith),
        )
      ]
