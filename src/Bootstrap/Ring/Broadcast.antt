-- ===== src/Bootstrap/Ring/Broadcast.antt =====
-- src/core/bootstrap/bootstrap.cc: what the ranks have received at any time in `broadcast`.
use mscclpp.Base.{
  ℕ, ◌+◌, ◌<◌, ◌≡◌, ◌≢◌, refl, sym, ap, subst, ◌∙◌, inl, inr, ℕ_discrete, ltb, if◌then◌else◌,
  Bool-cases, some, some-inj, if-some-inj, List, [], ◌∷◌, ◌++◌, update, update_self, update_ne,
  all_update, both_update, arith,
}
use mscclpp.Bootstrap.Ring.{
  Action, send, recv, receive_step, next_rank, Ring, can_send, do_send, do_recv, act, step_rank,
}
use mscclpp.Bootstrap.Ring.Slots.{place-lt, next_rank-lt, next_rank-inj, next_rank-ne, previous}
use mscclpp.Bootstrap.Ring.Relay.{distance-next, distance-last, receive_step-distance, forward}

pub data Duty : Type 0 where
  waits sends returned : Duty

-- What a rank has left.
abbrev pub plan : ℕ → ℕ → ℕ → Duty → List Action
plan n root r waits = recv 0 ∷ forward n root r
plan n root r sends = send 0 ∷ []
plan n root r returned = []

abbrev pub IsWaiting : Duty → Type 0
IsWaiting waits = Unit
IsWaiting _ = ⊥

abbrev pub IsSending : Duty → Type 0
IsSending sends = Unit
IsSending _ = ⊥

module _ {A : Type 0} (v : A) where
  -- A rank that has not sent has a successor that waits, on an empty wire.
  abbrev pub Passed : Duty → Duty → List A → Type 0
  Passed returned waits wire = wire ≡ v ∷ []
  Passed returned _ wire = wire ≡ []
  Passed _ after wire = IsWaiting after × (wire ≡ [])

  abbrev pub Has : Duty → (ℕ → A) → Type 0
  Has waits buffer = Unit
  Has _ buffer = buffer 0 ≡ v

  module _ (n root : ℕ) where
    pub record Inv (s : Ring A) : Type 0 where
      pub stage : ℕ → Duty
      pub at : (r : ℕ) → r < n → s.todo r ≡ plan n root r (stage r)
      pub got : (r : ℕ) → r < n → Has (stage r) (s.buffer r)
      pub root_has : ¬ IsWaiting (stage root)
      pub last : (r : ℕ) → r < n → next_rank n r ≡ root → ¬ IsSending (stage r)
      pub linked :
          (r : ℕ)
          → r < n
          → next_rank n r ≢ root
          → Passed (stage r) (stage (next_rank n r)) (s.wire (next_rank n r))

  sent-Passed :
      (after : Duty) (wire : List A) (x : A)
      → Passed sends after wire
      → x ≡ v
      → Passed returned after (wire ++ (x ∷ []))
  sent-Passed waits wire x (w, e) hx = rw (e, hx) refl
  sent-Passed sends wire x (w, e) hx = absurd w
  sent-Passed returned wire x (w, e) hx = absurd w

  done-Passed :
      (before : Duty) (wire : List A) → Passed before sends wire → Passed before returned wire
  done-Passed waits wire (w, e) = absurd w
  done-Passed sends wire (w, e) = absurd w
  done-Passed returned wire e = e

  -- Only a rank that has sent has its message taken.
  recv-Passed :
      (before : Duty) (x : A) (xs : List A)
      → Passed before waits (x ∷ xs)
      → (before ≡ returned) × (x ≡ v) × (xs ≡ [])
  recv-Passed waits x xs (w, e) = absurd cc
  recv-Passed sends x xs (w, e) = absurd cc
  recv-Passed returned x xs e = (refl, cc, cc)

  taken-Passed : (after : Duty) → ¬ IsWaiting after → Passed returned after []
  taken-Passed waits h = absurd (h tt)
  taken-Passed sends h = refl
  taken-Passed returned h = refl

  module _ (n root : ℕ) (many : 1 < n) (hroot : root < n) where
    send-Inv :
        (s : Ring A) (r : ℕ) (i : Inv n root s)
        → r < n
        → i.stage r ≡ sends
        → Inv n root (do_send n s r 0 [])
    send-Inv s r i hr hs =
        let got_v : s.buffer r 0 ≡ v = rw hs at (i.got r hr) in
        let not_last : next_rank n r ≢ root = λ e. (rw hs at (i.last r hr e)) tt in
        let apart = next_rank-ne n r hr many in
        let old = rw hs at (i.linked r hr not_last) in
        record {
          stage = update i.stage r returned;
          at =
              both_update (λ q t todo. q < n → todo ≡ plan n root q t) i.stage s.todo r returned []
                (λ _. refl) (λ q _. i.at q);
          got =
              all_update (λ q t. q < n → Has t (s.buffer q)) i.stage r returned (λ _. got_v)
                (λ q _. i.got q);
          root_has =
              all_update (λ q t. q ≡ root → ¬ IsWaiting t) i.stage r returned (λ _ w. w)
                (λ q _ e. rw e i.root_has) root refl;
          last =
              all_update (λ q t. q < n → next_rank n q ≡ root → ¬ IsSending t) i.stage r returned
                (λ _ _ w. w) (λ q _. i.last q);
          linked = λ q hq ne. elim (ℕ_discrete r q) [
            | yes e ↦
                subst
                  (λ q.
                    Passed (update i.stage r returned q) (update i.stage r returned (next_rank n q))
                      (update s.wire (next_rank n r) (s.wire (next_rank n r) ++ (s.buffer r 0 ∷ []))
                        (next_rank n q)))
                  e
                  (rw
                    (
                      update_self i.stage r returned,
                      update_ne i.stage r (next_rank n r) returned (λ e. apart (sym e)),
                      update_self s.wire (next_rank n r)
                          (s.wire (next_rank n r) ++ (s.buffer r 0 ∷ [])),
                    )
                    (sent-Passed (i.stage (next_rank n r)) (s.wire (next_rank n r)) (s.buffer r 0)
                      old got_v))
            | no other ↦
                rw
                  (
                    update_ne i.stage r q returned other,
                    update_ne s.wire (next_rank n r) (next_rank n q)
                        (s.wire (next_rank n r) ++ (s.buffer r 0 ∷ []))
                        (λ e. other (next_rank-inj n r q hr hq e)),
                  )
                  (all_update
                    (λ p t. p ≡ next_rank n q → Passed (i.stage q) t (s.wire (next_rank n q)))
                    i.stage r returned
                    (λ e. done-Passed (i.stage q) (s.wire (next_rank n q)) (
                      subst (λ t. Passed (i.stage q) t (s.wire (next_rank n q)))
                        (sym (ap i.stage e) ∙ hs) (i.linked q hq ne)))
                    (λ p _ e. rw e (i.linked q hq ne)) (next_rank n q) refl)
          ];
        }

    -- The stage after a receive
    abbrev then_stage : ℕ → Duty
    then_stage r = if ltb (receive_step n r root + 2) n then sends else returned

    then_stage-plan : (r : ℕ) → forward n root r ≡ plan n root r (then_stage r)
    then_stage-plan r = elim (Bool-cases (ltb (receive_step n r root + 2) n)) [
      | inl t ↦ rw t refl
      | inr t ↦ rw t refl
    ]

    then_stage-last : (r : ℕ) → r < n → r ≢ root → next_rank n r ≡ root → then_stage r ≡ returned
    then_stage-last r hr ne e =
        let d = receive_step-distance n root r hroot hr ne in
        let d' = distance-last n root r hroot hr e in ground arith

    then_stage-inner : (r : ℕ) → r < n → r ≢ root → next_rank n r ≢ root → then_stage r ≡ sends
    then_stage-inner r hr ne h =
        let d = receive_step-distance n root r hroot hr ne in
        let d' = distance-next n root r hroot hr h in
        let d'' = place-lt n (next_rank n r) root (next_rank-lt n r hr) hroot in ground arith

    then_stage-not-IsWaiting : (r : ℕ) → ¬ IsWaiting (then_stage r)
    then_stage-not-IsWaiting r = elim (Bool-cases (ltb (receive_step n r root + 2) n)) [
      | inl t ↦ rw t λ w. w
      | inr t ↦ rw t λ w. w
    ]

    then_stage-Has : (r : ℕ) (buffer : ℕ → A) → buffer 0 ≡ v → Has (then_stage r) buffer
    then_stage-Has r buffer h = elim (Bool-cases (ltb (receive_step n r root + 2) n)) [
      | inl t ↦ rw t h
      | inr t ↦ rw t h
    ]

    recv-Inv :
        (s : Ring A) (r : ℕ) (x : A) (xs : List A) (i : Inv n root s)
        → r < n
        → i.stage r ≡ waits
        → s.wire r ≡ x ∷ xs
        → Inv n root record s {
          todo = update s.todo r (forward n root r);
          buffer = update s.buffer r (update (s.buffer r) 0 x);
          wire = update s.wire r xs;
        }
    recv-Inv s r x xs i hr hs hw =
        let ne : r ≢ root = λ e. i.root_has (subst IsWaiting (sym hs ∙ ap i.stage e) tt) in
        let (p, hp, np) = previous n r hr in
        let (returned_p, value, rest) =
          recv-Passed (i.stage p) x xs
            (rw (np, hs, hw) at (i.linked p hp (λ e. ne (sym np ∙ e)))) in
        let new = then_stage r in
        let apart = next_rank-ne n r hr many in
        record {
          stage = update i.stage r new;
          at =
              both_update (λ q t todo. q < n → todo ≡ plan n root q t) i.stage s.todo r new
                (forward n root r) (λ _. then_stage-plan r) (λ q _. i.at q);
          got =
              both_update (λ q t b. q < n → Has t b) i.stage s.buffer r new
                (update (s.buffer r) 0 x)
                (λ _.
                  then_stage-Has r (update (s.buffer r) 0 x) (update_self (s.buffer r) 0 x ∙ value))
                (λ q _. i.got q);
          root_has =
              all_update (λ q t. q ≡ root → ¬ IsWaiting t) i.stage r new (λ e. absurd (ne e))
                (λ q _ e. rw e i.root_has) root refl;
          last =
              all_update (λ q t. q < n → next_rank n q ≡ root → ¬ IsSending t) i.stage r new
                (λ _ e. rw (then_stage-last r hr ne e) λ w. w) (λ q _. i.last q);
          linked = λ q hq h. elim (ℕ_discrete p q) [
            | yes e ↦
                subst
                  (λ q.
                    Passed (update i.stage r new q) (update i.stage r new (next_rank n q))
                      (update s.wire r xs (next_rank n q)))
                  e
                  (rw
                    (
                      np,
                      update_self i.stage r new,
                      update_self s.wire r xs,
                      update_ne i.stage r p new (λ e. apart (ap (next_rank n) e ∙ np)),
                      returned_p,
                      rest,
                    )
                    (taken-Passed new (then_stage-not-IsWaiting r)))
            | no other ↦
                let away : r ≢ next_rank n q = λ e. other (next_rank-inj n p q hp hq (np ∙ e)) in
                rw
                  (
                    update_ne i.stage r (next_rank n q) new away,
                    update_ne s.wire r (next_rank n q) xs away,
                  )
                  (all_update
                    (λ q t.
                      q < n
                      → next_rank n q ≢ root
                      → Passed t (i.stage (next_rank n q)) (s.wire (next_rank n q)))
                    i.stage r new
                    (λ _ inner.
                      rw (then_stage-inner r hr ne inner) (rw hs at (i.linked r hr inner)))
                    (λ q _. i.linked q) q hq h)
          ];
        }

    at-step :
        (cap : ℕ) (s u : Ring A) (r : ℕ) (i : Inv n root s)
        → r < n
        → (t : Duty) → i.stage r ≡ t
        → act n cap s r (plan n root r t) ≡ some u
        → Inv n root u
    at-step cap s u r i hr returned hs e = absurd cc
    at-step cap s u r i hr sends hs e =
        subst (Inv n root) (if-some-inj (can_send cap s (next_rank n r)) e) (send-Inv s r i hr hs)
    at-step cap s u r i hr waits hs e = go (s.wire r) refl e
      where
        go :
            (wire : List A)
            → s.wire r ≡ wire
            → do_recv s r 0 (forward n root r) wire ≡ some u
            → Inv n root u
        go [] hw e = absurd cc
        go (x ∷ xs) hw e = subst (Inv n root) (some-inj e) (recv-Inv s r x xs i hr hs hw)

    pub step-Inv :
        (cap : ℕ) (s u : Ring A) (r : ℕ)
        → r < n
        → step_rank n cap s r ≡ some u
        → Inv n root s
        → Inv n root u
    unfolding step_rank
    step-Inv cap s u r hr e i = at-step cap s u r i hr (i.stage r) refl (rw (i.at r hr) at e)
