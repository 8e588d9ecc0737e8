-- ===== src/Bootstrap/Ring/Progress.antt =====
-- src/core/bootstrap/bootstrap.cc: `allGather` ends on every rank, and `barrier` holds each rank back.
use mscclpp.Base.{
  ℕ, zero, suc, ◌+◌, ◌-◌, ◌*◌, ◌<◌, ◌≤◌, ◌≡◌, ◌≢◌, refl, sym, ap, subst, ◌∙◌, ◌⊎◌, inl, inr, dec_le,
  dec_lt, ℕ_discrete, Bool, true, false, some, List, [], ◌∷◌, length, bit, some-inj, if-some-inj,
  lt→ltb, update, total, total-update, total-const, le-total, arith,
}
use mscclpp.Bootstrap.Ring.{
  Action, send, recv, gather_rounds, all_gather, next_rank, recv_slice, Ring, can_send, do_send,
  send_slice, do_recv, act, step_rank, begin, Runs, start, later,
}
use mscclpp.Bootstrap.Ring.Slots.{
  place, place-lt, place-onto, place-zero, next_rank-place_suc, next_rank-lt, previous, slices,
}
use mscclpp.Bootstrap.Ring.Rounds.{left, Inv, left-eq-nil}
use mscclpp.Bootstrap.Ring.Gather.{run-Inv, own_slice, all_gather_lem}

-- The least member of a family.
least : (f : ℕ → ℕ) (n : ℕ) → 0 < n → (i : ℕ) × (i < n) × ((j : ℕ) → j < n → f i ≤ f j)
least f zero h = absurd (omega arith)
least f (suc zero) h = (0, omega arith, λ j hj. let e : j ≡ 0 = omega arith in rw e omega arith)
least f (suc (suc n)) h =
    let (i, hi, small) = least f (suc n) (omega arith) in
    elim (dec_le (f i) (f (suc n))) [
      | yes le ↦ (
        i,
        omega arith,
        λ j hj. elim (dec_le j n) [
          | yes old ↦ small j (omega arith)
          | no new ↦ let e : j ≡ suc n = omega arith in rw e le
        ],
      )
      | no gt ↦ (
        suc n,
        omega arith,
        λ j hj. elim (dec_le j n) [
          | yes old ↦ omega (arith, small j (omega arith))
          | no new ↦ let e : j ≡ suc n = omega arith in rw e omega arith
        ],
      )
    ]

left-pos : (n r i : ℕ) (sent : Bool) (k : ℕ) → left n r i sent k ≢ [] → 0 < k
unfolding gather_rounds
left-pos n r i false zero h = absurd (h refl)
left-pos n r i true zero h = absurd (h refl)
left-pos n r i sent (suc k) h = omega arith

List-cases : {A : Type 0} (xs : List A) → (xs ≡ []) ⊎ (xs ≢ [])
List-cases [] = inl refl
List-cases (x ∷ xs) = inr (λ e. absurd cc)

bit-le-one : (b : Bool) → bit b ≤ 1
bit-le-one true = omega arith
bit-le-one false = omega arith

-- What is left of `allGather` of some rank, if any.
pub busy_rank :
    (todo : ℕ → List Action) (n : ℕ)
    → ((r : ℕ) → r < n → todo r ≡ []) ⊎ ((r : ℕ) × (r < n) × (todo r ≢ []))
busy_rank todo zero = inl λ r h. absurd (omega arith)
busy_rank todo (suc n) = elim (List-cases (todo n)) [
  | inr ne ↦ inr (n, omega arith, ne)
  | inl e ↦ elim (busy_rank todo n) [
    | inl all ↦ inl (
        (λ r hr. elim (ℕ_discrete n r) [
          | yes same ↦ subst (λ k. todo k ≡ []) same e
          | no other ↦ all r (omega arith)
        ]))
    | inr (r, hr, ne) ↦ inr (r, omega arith, ne)
  ]
]

module _ {A : Type 0} (n cap : ℕ) (own : ℕ → A) where
  -- A rank that has not sent, to one that has received all, or that has a message to receive, can act.
  left-moves :
      (s : Ring A) (r i k : ℕ) (sent : Bool)
      → 0 < k
      → 0 < cap
      → ((sent ≡ false) → length (s.wire (next_rank n r)) ≡ 0)
      → ((sent ≡ true) → 0 < length (s.wire r))
      → (u : Ring A) × (act n cap s r (left n r i sent k) ≡ some u)
  unfolding gather_rounds
  left-moves s r i zero sent hk hc free full = absurd (omega arith)
  left-moves s r i (suc k) false hk hc free full =
      let empty = free refl in
      let room : can_send cap s (next_rank n r) ≡ true =
        rw (lt→ltb (length (s.wire (next_rank n r))) cap (omega arith)) refl in
      (do_send n s r (send_slice n r i) (left n r i true (suc k)), rw room refl)
  left-moves s r i (suc k) true hk hc free full = go (s.wire r) (full refl)
    where
      go :
          (wire : List A)
          → 0 < length wire
          → (u : Ring A) × (do_recv s r (recv_slice n r i) (left n r (i + 1) false k) wire ≡ some u)
      go [] h = absurd (omega arith)
      go (x ∷ xs) h = (_, refl)

  length-slices : (r i c : ℕ) → length (slices n own r i c) ≡ c
  length-slices r i zero = refl
  length-slices r i (suc c) = ap suc (length-slices r (i + 1) c)

  -- The rank with the fewest rounds can act, or the one before it.
  Inv-moves :
      (s : Ring A) (v : Inv n own s) (r : ℕ)
      → r < n
      → 0 < cap
      → s.todo r ≢ []
      → (q : ℕ) × (q < n) × ((u : Ring A) × (step_rank n cap s q ≡ some u))
  unfolding step_rank
  Inv-moves s v r hr room busy =
      let (m, hm, small) = least (λ q. (v.status q).i) n (omega arith) in
      let (p, hp, np) = previous n m hm in
      let at_r = v.at r hr in
      let at_m = v.at m hm in
      let at_p = v.at p hp in
      let le_r = small r hr in
      let le_p = small p hp in
      let (c, hc, hw) = rw np at (v.wired p hp) in
      let busy_r : 0 < at_r.k =
        left-pos n r (v.status r).i (v.status r).sent at_r.k (λ e. busy (at_r.todo_left ∙ e)) in
      elim (dec_lt (v.status m).i ((v.status p).i + bit (v.status p).sent)) [
        | yes more ↦
            let full : 0 < length (s.wire m) =
              rw (hw, length-slices p (v.status m).i c) omega arith in
            let (c', hc', hw') = v.wired m hm in
            let le_next = small (next_rank n m) (next_rank-lt n m hm) in
            (
              m,
              hm,
              rw (at_m.todo_left) (
                  left-moves s m (v.status m).i at_m.k (v.status m).sent
                    (omega (arith, at_r.rounds, at_m.rounds)) room
                    (λ e.
                      let hc'' = rw e at hc' in
                      rw (hw', length-slices m (v.status (next_rank n m)).i c') (omega arith))
                    (λ _. full)),
            )
        | no same ↦ (
          p,
          hp,
          rw (at_p.todo_left) (
              left-moves s p (v.status p).i at_p.k (v.status p).sent
                (omega (arith, at_r.rounds, at_p.rounds)) room
                (λ e.
                  let hc' = rw e at hc in
                  rw (np, hw, length-slices p (v.status m).i c) (omega (arith, ap bit e)))
                (λ e. absurd (same (rw e omega (arith, le_p))))),
        )
      ]

-- An action takes one from the program of its rank.
act-todo :
    {A : Type 0} (n cap : ℕ) (s u : Ring A) (r : ℕ) (todo : List Action)
    → act n cap s r todo ≡ some u
    → (a : Action) × (rest : List Action) × (todo ≡ a ∷ rest) × (u.todo ≡ update s.todo r rest)
act-todo n cap s u r [] e = absurd cc
act-todo n cap s u r (send x ∷ rest) e =
    let sent = if-some-inj (can_send cap s (next_rank n r)) e in
    (send x, rest, refl, ap Ring.todo (sym sent))
act-todo {A = A} n cap s u r (recv x ∷ rest) e = (recv x, rest, refl, go (s.wire r) e)
  where
    go : (wire : List A) → do_recv s r x rest wire ≡ some u → u.todo ≡ update s.todo r rest
    go [] e = absurd cc
    go (x ∷ xs) e = ap Ring.todo (sym (some-inj e))

-- Each action takes one from what all ranks have left.
pub run-total :
    {A : Type 0} (n cap : ℕ) (s : Ring A) (k : ℕ) (u : Ring A)
    → Runs n cap s k u
    → k + total length u.todo n ≡ total length s.todo n
unfolding step_rank
run-total n cap s zero _ start = omega arith
run-total n cap s (suc k) u (later {t = t} r hr rest e) =
    let (a, left_over, eq, upd) = act-todo n cap t u r (t.todo r) e in
    let step = total-update length t.todo left_over n r hr in
    let step' = rw eq at step in rw upd omega (arith, run-total n cap s k t rest, step')

length-gather_rounds : (n r i k : ℕ) → length (gather_rounds n r i k) ≡ 2 * k
unfolding gather_rounds
length-gather_rounds n r i zero = omega arith
length-gather_rounds n r i (suc k) = rw (length-gather_rounds n r (i + 1) k) omega arith

length-left :
    (n r i : ℕ) (sent : Bool) (k : ℕ) → bit sent ≤ k → length (left n r i sent k) + bit sent ≡ 2 * k
length-left n r i false k h = omega (arith, length-gather_rounds n r i k)
length-left n r i true zero h = absurd (omega arith)
length-left n r i true (suc k) h = omega (arith, length-gather_rounds n r (i + 1) k)

length-pos : {A : Type 0} (xs : List A) → xs ≢ [] → 0 < length xs
length-pos [] h = absurd (h refl)
length-pos (x ∷ xs) h = omega arith

module _ {A : Type 0} (n cap : ℕ) (contents : ℕ → ℕ → A) where
  -- Where each socket of the ring has room for at least one slice, whatever the order in which the ranks
  -- act, after `2 * (n - 1)` actions for each of the `n` ranks every call of `allGather` has returned
  -- and every rank holds the slice of every rank, and until then some rank can act.
  pub all_gather_ends :
      (k : ℕ) (s : Ring A)
      → 0 < cap
      → Runs n cap (begin (all_gather n) contents) k s
      → (k ≡ n * (2 * (n - 1)))
          × ((r q : ℕ) → r < n → q < n → (s.todo r ≡ []) × (s.buffer r q ≡ contents q q))
        ⊎ (k < n * (2 * (n - 1)))
          × ((r : ℕ) × (r < n) × ((u : Ring A) × (step_rank n cap s r ≡ some u)))
  unfolding begin all_gather
  all_gather_ends k s room run =
      let sum = run-total n cap (begin (all_gather n) contents) k s run in
      let all =
        total-const length (all_gather n) n (2 * (n - 1))
          (λ r _. length-gather_rounds n r 0 (n - 1)) in
      elim (busy_rank s.todo n) [
        | inl done ↦
            let none_left = total-const length s.todo n 0 (λ r hr. rw (done r hr) refl) in
            inl (
              omega arith,
              λ r q hr hq. (done r hr, all_gather_lem n cap contents k s run r q hr hq (done r hr)),
            )
        | inr (r, hr, busy) ↦
            let mine = le-total length s.todo n r hr in
            let some_left : 0 < length (s.todo r) = length-pos (s.todo r) busy in
            inr (
              omega arith,
              Inv-moves n cap (own_slice n cap contents) s (run-Inv n cap contents k s run) r hr
                  room busy,
            )
      ]

  -- The rank `j` places back has sent at least `n - j` messages when a rank has returned.
  sent_back :
      (s : Ring A) (v : Inv n (own_slice n cap contents) s) (r j : ℕ)
      → r < n
      → (v.status r).i ≡ n - 1
      → j + 1 < n
      → n ≤ (v.status (place n r (j + 1))).i + bit (v.status (place n r (j + 1))).sent + (j + 1)
  sent_back s v r zero hr done hj =
      let p = place n r 1 in
      let (c, hc, hw) = v.wired p (place-lt n r 1 hr (omega arith)) in
      let e : next_rank n p ≡ r = next_rank-place_suc n r 0 hr (omega arith) ∙ place-zero n r in
      let hc' = rw (e, done) at hc in omega (arith, hc')
  sent_back s v r (suc j) hr done hj =
      let p = place n r (suc j + 1) in
      let (c, hc, hw) = v.wired p (place-lt n r (suc j + 1) hr (omega arith)) in
      let e : next_rank n p ≡ place n r (j + 1) =
        next_rank-place_suc n r (suc j) hr (omega arith) ∙ ap (place n r) (omega arith) in
      let hc' = rw e at hc in
      let before = sent_back s v r j hr done (omega arith) in
      omega (arith, before, bit-le-one (v.status (place n r (j + 1))).sent, hc')

  -- When a call of `barrier` by one of the ranks returns, every other rank has called it: it has done
  -- the first action of its `allGather`.
  pub barrier_holds :
      (k : ℕ) (s : Ring A)
      → Runs n cap (begin (all_gather n) contents) k s
      → (r q : ℕ) → r < n
      → q < n
      → r ≢ q
      → s.todo r ≡ []
      → length (s.todo q) < length (all_gather n q)
  unfolding all_gather
  barrier_holds k s run r q hr hq ne done =
      let v = run-Inv n cap contents k s run in
      let at_r = v.at r hr in
      let at_q = v.at q hq in
      let end =
        left-eq-nil n r (v.status r).i (v.status r).sent at_r.k at_r.busy
          (rw done at (sym (at_r.todo_left))) in
      let (j, hj, e) = place-onto n r q hr hq in
      let e' : place n r (j - 1 + 1) ≡ q = ap (place n r) (omega (arith, back j e)) ∙ e in
      let sent =
        rw e' at
          (sent_back s v r (j - 1) hr (omega (arith, at_r.rounds)) (omega (arith, back j e))) in
      rw (at_q.todo_left, length-gather_rounds n q 0 (n - 1)) omega
        (
          arith,
          length-left n q (v.status q).i (v.status q).sent at_q.k at_q.busy,
          at_q.rounds,
          sent,
          back j e,
        )
    where
      back : (j : ℕ) → place n r j ≡ q → 0 < j
      back zero e = absurd (ne (sym (place-zero n r) ∙ e))
      back (suc j) e = omega arith
