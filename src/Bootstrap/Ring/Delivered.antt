-- ===== src/Bootstrap/Ring/Delivered.antt =====
-- src/core/bootstrap/bootstrap.cc: `broadcast` reaches every rank, and ends.
use mscclpp.Base.{
  ℕ, zero, suc, ◌*◌, ◌<◌, ◌≤◌, ◌≡◌, ◌≢◌, refl, sym, ap, subst, ◌∙◌, ◌⊎◌, inl, inr, ℕ_discrete, ◌==◌,
  ==_self, if◌then◌else◌, true, some, [], ◌∷◌, length, total-le, arith,
}
use mscclpp.Bootstrap.Ring.{
  broadcast, next_rank, Ring, can_send, step_rank, begin, Runs, start, later,
}
use mscclpp.Bootstrap.Ring.Slots.{next_rank-ne, next_rank-lt, previous}
use mscclpp.Bootstrap.Ring.Relay.{
  ==_ne, distance, distance-next, distance-root, broadcast-root, broadcast-others,
}
use mscclpp.Bootstrap.Ring.Progress.{run-total, busy_rank}
use mscclpp.Bootstrap.Ring.Broadcast.{
  Duty, waits, sends, returned, plan, IsWaiting, Has, Inv, step-Inv,
}

Duty-cases : (t : Duty) → (t ≡ returned) ⊎ ((t ≡ sends) ⊎ (t ≡ waits))
Duty-cases returned = inl refl
Duty-cases sends = inr (inl refl)
Duty-cases waits = inr (inr refl)

module _ {A : Type 0} (n cap root : ℕ) (many : 1 < n) (hroot : root < n)
    (contents : ℕ → ℕ → A) where
  begin_stage : ℕ → Duty
  begin_stage r = if r == root then sends else waits

  begin_stage-root : begin_stage root ≡ sends
  unfolding begin_stage
  begin_stage-root = rw (==_self root) refl

  begin_stage-ne : (r : ℕ) → r ≢ root → begin_stage r ≡ waits
  unfolding begin_stage
  begin_stage-ne r ne = rw (==_ne r root ne) refl

  begin-Inv : Inv (contents root 0) n root (begin (broadcast n root) contents)
  unfolding begin
  begin-Inv = record {
    stage = begin_stage;
    at = λ r hr. elim (ℕ_discrete r root) [
      | yes e ↦
          subst (λ q. broadcast n root q ≡ plan n root q (begin_stage q)) (sym e)
            (rw begin_stage-root (broadcast-root n root many))
      | no ne ↦ rw (begin_stage-ne r ne) (broadcast-others n root r many hroot hr ne)
    ];
    got = λ r hr. elim (ℕ_discrete r root) [
      | yes e ↦
          subst (λ q. Has (contents root 0) (begin_stage q) (contents q)) (sym e)
            (rw begin_stage-root refl)
      | no ne ↦ rw (begin_stage-ne r ne) tt
    ];
    root_has = rw begin_stage-root λ w. w;
    last = λ r hr e. rw (begin_stage-ne r (λ h. next_rank-ne n r hr many (e ∙ sym h))) λ w. w;
    linked = λ r hr ne. elim (ℕ_discrete r root) [
      | yes e ↦
          rw (begin_stage-ne (next_rank n r) ne, ap begin_stage e ∙ begin_stage-root) (tt, refl)
      | no other ↦ rw (begin_stage-ne (next_rank n r) ne, begin_stage-ne r other) (tt, refl)
    ];
  }

  pub run-Inv :
      (k : ℕ) (s : Ring A)
      → Runs n cap (begin (broadcast n root) contents) k s
      → Inv (contents root 0) n root s
  run-Inv zero s start = begin-Inv
  run-Inv (suc k) s (later {t = t} r hr rest e) =
      step-Inv (contents root 0) n root many hroot cap t s r hr e (run-Inv k t rest)

  -- When a call of `broadcast` returns, the rank has the data of the root.
  pub broadcast_lem :
      (k : ℕ) (s : Ring A)
      → Runs n cap (begin (broadcast n root) contents) k s
      → (r : ℕ) → r < n
      → s.todo r ≡ []
      → s.buffer r 0 ≡ contents root 0
  broadcast_lem k s run r hr done =
      let i = run-Inv k s run in go (i.stage r) (sym (i.at r hr) ∙ done) (i.got r hr)
    where
      go :
          (t : Duty)
          → plan n root r t ≡ []
          → Has (contents root 0) t (s.buffer r)
          → s.buffer r 0 ≡ contents root 0
      go waits e h = absurd cc
      go sends e h = absurd cc
      go returned e h = h

  length-broadcast : (r : ℕ) → r < n → length (broadcast n root r) ≤ 2
  length-broadcast r hr = elim (ℕ_discrete r root) [
    | yes e ↦ rw (e, broadcast-root n root many) omega arith
    | no ne ↦ rw (broadcast-others n root r many hroot hr ne) ground arith
  ]

  waiting-room :
      (s : Ring A) (q : ℕ) (t : Duty)
      → IsWaiting t
      → s.wire q ≡ []
      → s.todo q ≡ plan n root q t
      → can_send cap s q ≡ true
  waiting-room s q waits w e h = rw (e, h) (ground arith)
  waiting-room s q sends w e h = absurd w
  waiting-room s q returned w e h = absurd w

  sends-moves :
      (s : Ring A) (i : Inv (contents root 0) n root s) (r : ℕ)
      → r < n
      → i.stage r ≡ sends
      → (u : Ring A) × (step_rank n cap s r ≡ some u)
  unfolding step_rank
  sends-moves s i r hr hs =
      let inner : next_rank n r ≢ root = λ e. (rw hs at (i.last r hr e)) tt in
      let (w, e) = rw hs at (i.linked r hr inner) in
      let room =
        waiting-room s (next_rank n r) (i.stage (next_rank n r)) w e
          (i.at (next_rank n r) (next_rank-lt n r hr)) in
      rw (i.at r hr, hs, room) (_, refl)

  recv-moves :
      (s : Ring A) (i : Inv (contents root 0) n root s) (r : ℕ)
      → r < n
      → i.stage r ≡ waits
      → s.wire r ≡ contents root 0 ∷ []
      → (u : Ring A) × (step_rank n cap s r ≡ some u)
  unfolding step_rank
  recv-moves s i r hr hs hw = rw (i.at r hr, hs, hw) (_, refl)

  -- Of a rank that waits and those before it, up to the root, one can act.
  waits-moves :
      (s : Ring A) (i : Inv (contents root 0) n root s) (d r : ℕ)
      → r < n
      → distance n root r ≤ d
      → i.stage r ≡ waits
      → (q : ℕ) × (q < n) × ((u : Ring A) × (step_rank n cap s q ≡ some u))
  waits-moves s i zero r hr hd e =
      let h : r ≡ root = distance-root n root r hroot hr (omega arith) in
      absurd (i.root_has (subst IsWaiting (sym e ∙ ap i.stage h) tt))
  waits-moves s i (suc d) r hr hd e =
      let ne : r ≢ root = λ h. i.root_has (subst IsWaiting (sym e ∙ ap i.stage h) tt) in
      let (p, hp, np) = previous n r hr in
      let inner : next_rank n p ≢ root = λ h. ne (sym np ∙ h) in
      let link = rw (np, e) at (i.linked p hp inner) in
      let nearer : distance n root p ≤ d =
        let far = rw np at (distance-next n root p hroot hp inner) in omega arith in
      elim (Duty-cases (i.stage p)) [
        | inl done ↦ (r, hr, recv-moves s i r hr e (rw done at link))
        | inr (inl e) ↦ (p, hp, sends-moves s i p hp e)
        | inr (inr e) ↦ waits-moves s i d p hp nearer e
      ]

  busy-moves :
      (s : Ring A) (i : Inv (contents root 0) n root s) (r : ℕ)
      → r < n
      → i.stage r ≢ returned
      → (q : ℕ) × (q < n) × ((u : Ring A) × (step_rank n cap s q ≡ some u))
  busy-moves s i r hr busy = elim (Duty-cases (i.stage r)) [
    | inl done ↦ absurd (busy done)
    | inr (inl e) ↦ (r, hr, sends-moves s i r hr e)
    | inr (inr e) ↦ waits-moves s i (distance n root r) r hr (omega arith) e
  ]

  -- However more than one rank act, and whatever room the sockets have, `broadcast` takes at most two
  -- actions for each, and at any time either every rank has returned and holds the data of the root, or
  -- some rank can act.
  pub broadcast_ends :
      (k : ℕ) (s : Ring A)
      → Runs n cap (begin (broadcast n root) contents) k s
      → (k ≤ n * 2)
        × (((r : ℕ) → r < n → (s.todo r ≡ []) × (s.buffer r 0 ≡ contents root 0))
            ⊎ ((r : ℕ) × (r < n) × ((u : Ring A) × (step_rank n cap s r ≡ some u))))
  unfolding begin
  broadcast_ends k s run =
      let sum = run-total n cap (begin (broadcast n root) contents) k s run in
      let bound = total-le length (broadcast n root) n 2 length-broadcast in
      let i = run-Inv k s run in
      (
        omega arith,
        elim (busy_rank s.todo n) [
          | inl done ↦ inl λ r hr. (done r hr, broadcast_lem k s run r hr (done r hr))
          | inr (r, hr, ne) ↦ inr (busy-moves s i r hr (λ e. ne (i.at r hr ∙ ap (plan n root r) e)))
        ],
      )
