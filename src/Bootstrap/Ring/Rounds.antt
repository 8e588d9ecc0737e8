-- ===== src/Bootstrap/Ring/Rounds.antt =====
-- src/core/bootstrap/bootstrap.cc: where the ranks are in their rounds of `allGather`, and what a send and a
-- receive change.
use mscclpp.Base.{
  ℕ, zero, suc, ◌+◌, ◌-◌, ◌<◌, ◌≤◌, ◌≡◌, ◌≢◌, refl, sym, ap, subst, ◌∙◌, ℕ_discrete, Bool, true,
  false, List, [], ◌∷◌, ◌++◌, update, update_self, update_ne, all_update, both_update, bit, arith,
}
use mscclpp.Bootstrap.Ring.{
  Action, recv, gather_rounds, next_rank, send_slice, recv_slice, Ring, do_send,
}
use mscclpp.Bootstrap.Ring.Slots.{
  place, send_slice-place, recv_slice-place, next_rank-inj, next_rank-ne, previous, place-next,
  place-inj, slices, slices-append,
}

-- What a rank has left at round `i` of which `k` are left: it has sent in this round, or not.
abbrev pub left : ℕ → ℕ → ℕ → Bool → ℕ → List Action
left n r i false k = gather_rounds n r i k
left n r i true zero = []
left n r i true (suc k) = recv (recv_slice n r i) ∷ gather_rounds n r (i + 1) k

pub record Status : Type 0 where
  pub i : ℕ  -- the round
  pub sent : Bool

pub record At (n r : ℕ) (t : Status) (todo : List Action) : Type 0 where
  pub k : ℕ
  pub rounds : t.i + k ≡ n - 1
  pub busy : bit t.sent ≤ k
  pub todo_left : todo ≡ left n r t.i t.sent k

-- A rank with nothing left has finished its rounds.
pub left-eq-nil : (n r i : ℕ) (sent : Bool) (k : ℕ) → bit sent ≤ k → left n r i sent k ≡ [] → k ≡ 0
unfolding gather_rounds
left-eq-nil n r i sent zero hb e = refl
left-eq-nil n r i false (suc k) hb e = absurd cc
left-eq-nil n r i true (suc k) hb e = absurd cc

module _ {A : Type 0} (n : ℕ) (own : ℕ → A) where
  -- The buffer of a rank holds the slices of the rounds that it has finished.
  abbrev pub Held : ℕ → Status → (ℕ → A) → Type 0
  Held r t buffer = (j : ℕ) → j ≤ t.i → buffer (place n r j) ≡ own (place n r j)

  -- What rank `r` has sent to one that is in round `i`, and that one has not received.
  abbrev pub Wired : ℕ → Status → ℕ → List A → Type 0
  Wired r from i wire = (c : ℕ) × (i + c ≡ from.i + bit from.sent) × (wire ≡ slices n own r i c)

  pub record Inv (s : Ring A) : Type 0 where
    pub status : ℕ → Status
    pub at : (r : ℕ) → r < n → At n r (status r) (s.todo r)
    pub held : (r : ℕ) → r < n → Held r (status r) (s.buffer r)
    pub wired :
        (r : ℕ) → r < n → Wired r (status r) (status (next_rank n r)).i (s.wire (next_rank n r))

  send-Wired :
      (r i : ℕ) (from : Status) (wire : List A) (v : A)
      → from.sent ≡ false
      → v ≡ own (place n r from.i)
      → Wired r from i wire
      → Wired r (record { i = from.i; sent = true }) i (wire ++ (v ∷ []))
  send-Wired r i from wire v hs hv (c, hc, hw) =
      let hc' = rw hs at hc in
      let e : from.i ≡ i + c = omega arith in
      (
        suc c,
        omega arith,
        rw (hw, hv)
            (ap (λ k. slices n own r i c ++ (own (place n r k) ∷ [])) e
              ∙ slices-append n own r i c),
      )

  pub send-Inv :
      (s : Ring A) (r k : ℕ) (v : Inv s)
      → r < n
      → (v.status r).sent ≡ false
      → (v.status r).i + suc k ≡ n - 1
      → Inv (do_send n s r (send_slice n r (v.status r).i) (left n r (v.status r).i true (suc k)))
  send-Inv s r k v hr hb hk =
      let t = v.status r in
      let new : Status = record { i = t.i; sent = true } in
      let same_i = all_update (λ q t. t.i ≡ (v.status q).i) v.status r new refl (λ q ne. refl) in
      let own_slice : s.buffer r (send_slice n r t.i) ≡ own (place n r t.i) =
        ap (s.buffer r) (send_slice-place n r t.i hr (omega arith))
        ∙ v.held r hr t.i (omega arith) in
      record {
        status = update v.status r new;
        at =
            both_update (λ q t todo. q < n → At n q t todo) v.status s.todo r new
              (left n r t.i true (suc k))
              (λ _. record { k = suc k; rounds = hk; busy = omega arith; todo_left = refl })
              (λ q ne. v.at q);
        held =
            all_update (λ q t. q < n → Held q t (s.buffer q)) v.status r new (v.held r)
              (λ q ne. v.held q);
        wired = λ q hq. rw (same_i (next_rank n q)) (elim (ℕ_discrete r q) [
          | yes e ↦
              subst
                (λ p. Wired p (update v.status r new p) (v.status (next_rank n p)).i (
                  update s.wire (next_rank n r)
                    (s.wire (next_rank n r) ++ (s.buffer r (send_slice n r t.i) ∷ []))
                    (next_rank n p)))
                e
                (rw
                  (
                    update_self v.status r new,
                    update_self s.wire (next_rank n r)
                        (s.wire (next_rank n r) ++ (s.buffer r (send_slice n r t.i) ∷ [])),
                  )
                  (send-Wired r (v.status (next_rank n r)).i t (s.wire (next_rank n r))
                    (s.buffer r (send_slice n r t.i)) hb own_slice (v.wired r hr)))
          | no ne ↦
              rw
                (
                  update_ne v.status r q new ne,
                  update_ne s.wire (next_rank n r) (next_rank n q)
                      (s.wire (next_rank n r) ++ (s.buffer r (send_slice n r t.i) ∷ []))
                      (λ e. ne (next_rank-inj n r q hr hq e)),
                )
                (v.wired q hq)
        ]);
      }

  -- What is received is the slice of the round, and the rest stays in order.
  recv-Wired :
      (r i : ℕ) (from : Status) (x : A) (xs : List A)
      → Wired r from i (x ∷ xs)
      → (x ≡ own (place n r i)) × Wired r from (i + 1) xs
  recv-Wired r i from x xs (zero, hc, hw) = absurd cc
  recv-Wired r i from x xs (suc c, hc, hw) = (cc, (c, omega arith, cc))

  recv-Held :
      (r i : ℕ) (sent : Bool) (buffer : ℕ → A) (x : A)
      → r < n
      → i + 1 < n
      → x ≡ own (place n r (i + 1))
      → Held r (record { i = i; sent = sent }) buffer
      → Held r (record { i = i + 1; sent = false }) (update buffer (recv_slice n r i) x)
  recv-Held r i sent buffer x hr hi hx h j hj =
      rw (recv_slice-place n r i hr (omega arith)) (elim (ℕ_discrete (i + 1) j) [
        | yes e ↦
            subst (λ j. update buffer (place n r (i + 1)) x (place n r j) ≡ own (place n r j)) e
              (update_self buffer (place n r (i + 1)) x ∙ hx)
        | no ne ↦
            update_ne buffer (place n r (i + 1)) (place n r j) x
              (λ e. ne (place-inj n r (i + 1) j hr hi (omega arith) e))
            ∙ h j (omega arith)
      ])

  -- A rank that ends its round has sent what it had.
  received-Wired :
      (r i : ℕ) (from : Status) (wire : List A)
      → from.sent ≡ true
      → Wired r from i wire
      → Wired r (record { i = from.i + 1; sent = false }) i wire
  received-Wired r i from wire hs (c, hc, hw) = let hc' = rw hs at hc in (c, omega arith, hw)

  pub recv-Inv :
      (s : Ring A) (r k : ℕ) (x : A) (xs : List A) (v : Inv s)
      → r < n
      → (v.status r).sent ≡ true
      → (v.status r).i + suc k ≡ n - 1
      → s.wire r ≡ x ∷ xs
      → Inv record s {
        todo = update s.todo r (left n r ((v.status r).i + 1) false k);
        buffer = update s.buffer r (update (s.buffer r) (recv_slice n r (v.status r).i) x);
        wire = update s.wire r xs;
      }
  recv-Inv s r k x xs v hr hb hk hx =
      let t = v.status r in
      let new : Status = record { i = t.i + 1; sent = false } in
      let (p, hp, np) = previous n r hr in
      let ne : p ≢ r = λ e. next_rank-ne n r hr (omega arith) (ap (next_rank n) (sym e) ∙ np) in
      let old = rw (np, hx) at (v.wired p hp) in
      let (value, rest) = recv-Wired p t.i (v.status p) x xs old in
      let value' : x ≡ own (place n r (t.i + 1)) =
        value
        ∙ ap own (sym (place-next n p t.i hp (omega arith)) ∙ ap (λ q. place n q (t.i + 1)) np) in
      record {
        status = update v.status r new;
        at =
            both_update (λ q t todo. q < n → At n q t todo) v.status s.todo r new
              (left n r (t.i + 1) false k)
              (λ _. record { k = k; rounds = omega arith; busy = omega arith; todo_left = refl })
              (λ q ne. v.at q);
        held =
            both_update (λ q t buffer. q < n → Held q t buffer) v.status s.buffer r new
              (update (s.buffer r) (recv_slice n r t.i) x)
              (λ _. recv-Held r t.i t.sent (s.buffer r) x hr (omega arith) value' (v.held r hr))
              (λ q ne. v.held q);
        wired = λ q hq. elim (ℕ_discrete p q) [
          | yes e ↦
              subst
                (λ p.
                  Wired p (update v.status r new p) (update v.status r new (next_rank n p)).i
                    (update s.wire r xs (next_rank n p)))
                e
                (rw
                  (
                    np,
                    update_self v.status r new,
                    update_self s.wire r xs,
                    update_ne v.status r p new (λ e. ne (sym e)),
                  )
                  rest)
          | no other ↦
              let away : r ≢ next_rank n q = λ e. other (next_rank-inj n p q hp hq (np ∙ e)) in
              rw
                (
                  update_ne v.status r (next_rank n q) new away,
                  update_ne s.wire r (next_rank n q) xs away,
                )
                (all_update
                  (λ q f. q < n → Wired q f (v.status (next_rank n q)).i (s.wire (next_rank n q)))
                  v.status r new
                  (λ h.
                    received-Wired r (v.status (next_rank n r)).i t (s.wire (next_rank n r)) hb
                      (v.wired r h))
                  (λ q ne. v.wired q) q hq)
        ];
      }
