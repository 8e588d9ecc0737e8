-- ===== src/Bootstrap/Ring/Gather.antt =====
-- src/core/bootstrap/bootstrap.cc: what the ranks have received at any time in `allGather`.
use mscclpp.Base.{
  ℕ, zero, suc, ◌+◌, ◌-◌, ◌<◌, ◌≤◌, ◌≡◌, refl, sym, subst, Bool, true, false, some, some-inj,
  if-some-inj, List, [], ◌∷◌, bit, arith,
}
use mscclpp.Bootstrap.Ring.{
  gather_rounds, all_gather, recv_slice, next_rank, can_send, Ring, do_recv, act, step_rank, begin,
  Runs, start, later,
}
use mscclpp.Bootstrap.Ring.Slots.{place-onto, place-zero}
use mscclpp.Bootstrap.Ring.Rounds.{left, left-eq-nil, Inv, send-Inv, recv-Inv}

module _ {A : Type 0} (n cap : ℕ) (own : ℕ → A) where
  at-step :
      (s u : Ring A) (r : ℕ) (v : Inv n own s)
      → r < n
      → (sent : Bool) (k : ℕ) → (v.status r).sent ≡ sent
      → bit sent ≤ k
      → (v.status r).i + k ≡ n - 1
      → act n cap s r (left n r (v.status r).i sent k) ≡ some u
      → Inv n own u
  unfolding gather_rounds
  at-step s u r v hr false zero hs hb hk e = absurd cc
  at-step s u r v hr false (suc k) hs hb hk e =
      let sent = if-some-inj (can_send cap s (next_rank n r)) e in
      subst (Inv n own) sent (send-Inv n own s r k v hr hs hk)
  at-step s u r v hr true zero hs hb hk e = absurd (omega arith)
  at-step s u r v hr true (suc k) hs hb hk e = go (s.wire r) refl e
    where
      go :
          (wire : List A)
          → s.wire r ≡ wire
          → do_recv s r (recv_slice n r (v.status r).i) (left n r ((v.status r).i + 1) false k) wire
            ≡ some u
          → Inv n own u
      go [] hw e = absurd cc
      go (x ∷ xs) hw e = subst (Inv n own) (some-inj e) (recv-Inv n own s r k x xs v hr hs hk hw)

  step-Inv :
      (s u : Ring A) (r : ℕ) → r < n → step_rank n cap s r ≡ some u → Inv n own s → Inv n own u
  unfolding step_rank
  step-Inv s u r hr e v =
      let a = v.at r hr in
      at-step s u r v hr (v.status r).sent a.k refl a.busy a.rounds (rw (a.todo_left) at e)

module _ {A : Type 0} (n cap : ℕ) (contents : ℕ → ℕ → A) where
  abbrev pub own_slice : ℕ → A
  own_slice r = contents r r

  begin-Inv : Inv n own_slice (begin (all_gather n) contents)
  unfolding begin all_gather
  begin-Inv = record {
    status = λ r. record { i = 0; sent = false };
    at = λ r hr. record { k = n - 1; rounds = omega arith; busy = omega arith; todo_left = refl };
    held = λ r hr j hj. let e : j ≡ 0 = omega arith in rw (e, place-zero n r) refl;
    wired = λ r hr. (0, refl, refl);
  }

  pub run-Inv :
      (k : ℕ) (s : Ring A) → Runs n cap (begin (all_gather n) contents) k s → Inv n own_slice s
  run-Inv k s start = begin-Inv
  run-Inv k s (later {t = t} r hr rest e) = step-Inv n cap own_slice t s r hr e (run-Inv _ t rest)

  -- When a call of `allGather` returns, the rank has the slice of every rank.
  pub all_gather_lem :
      (k : ℕ) (s : Ring A)
      → Runs n cap (begin (all_gather n) contents) k s
      → (r q : ℕ) → r < n
      → q < n
      → s.todo r ≡ []
      → s.buffer r q ≡ contents q q
  unfolding gather_rounds
  all_gather_lem k s run r q hr hq done =
      let v = run-Inv k s run in
      let a = v.at r hr in
      let (j, hj, e) = place-onto n r q hr hq in
      rw (sym e) (
        v.held r hr j (
          omega (
            arith,
            a.rounds,
            left-eq-nil n r (v.status r).i (v.status r).sent a.k a.busy
                (rw done at (sym a.todo_left)),
          )))
