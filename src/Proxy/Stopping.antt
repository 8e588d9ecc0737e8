-- ===== src/Proxy/Stopping.antt =====
-- The loop of src/core/proxy.cc: when it ends, and that a trigger handled is the one polled.
use mscclpp.Base.{
  ℕ, zero, suc, ◌+◌, ◌-◌, ◌≤◌, ◌≡◌, refl, ◌⊎◌, inl, inr, Bool, true, false, ◌||◌, none, some, ◌==◌,
  Bool-cases, ==_iff, Option-cases, arith,
}
use mscclpp.Trigger.{Trigger, flip}
use mscclpp.Proxy.{HandlerResult, continue, stop_check_period, serve, iterate, run}

serve_cnt :
    (polled : Trigger) (handler : Trigger → HandlerResult) (c d : ℕ)
    → (serve polled handler c).run_cnt ≡ some d
    → d ≡ c
unfolding serve
serve_cnt polled handler c d h = ground arith

-- What an iteration does to the count, and that it left the loop if the count was 0 when `running` was
-- false.
iterate_cnt :
    (running : Bool) (polled : Trigger) (handler : Trigger → HandlerResult) (c d : ℕ)
    → (iterate running polled handler c).run_cnt ≡ some d
    → (c ≡ 0) × (running ≡ true) × (d ≡ stop_check_period) ⊎ (d + 1 ≡ c)
unfolding iterate
iterate_cnt running polled handler c d h = elim (Bool-cases (c == 0)) [
  | inl z ↦
      let h' = rw z at h in
      elim (Bool-cases running) [
        | inl t ↦
            inl ((==_iff c 0).0 z, t, serve_cnt polled handler stop_check_period d (rw t at h'))
        | inr f ↦ absurd (let h'' = rw f at h' in cc)
      ]
  | inr z ↦ let same = serve_cnt polled handler (c - 1) d (rw z at h) in inr (ground (arith, same))
]

serve_goes :
    (polled : Trigger) (handler : Trigger → HandlerResult) (n : ℕ)
    → ((t : Trigger) → handler t ≡ continue)
    → (serve polled handler n).run_cnt ≡ some n
unfolding serve
serve_goes polled handler n goes = elim (Bool-cases ((polled.fst == 0) || (polled.snd == 0))) [
  | inl t ↦ rw t refl
  | inr t ↦ rw (t, goes (flip polled)) refl
]

iterate_goes :
    (polled : Trigger) (handler : Trigger → HandlerResult) (c : ℕ)
    → ((t : Trigger) → handler t ≡ continue)
    → c ≤ stop_check_period
    → (d : ℕ) × ((iterate true polled handler c).run_cnt ≡ some d) × (d ≤ stop_check_period)
unfolding iterate
iterate_goes polled handler c goes le = elim (Bool-cases (c == 0)) [
  | inl z ↦ rw z (stop_check_period, serve_goes polled handler stop_check_period goes, omega arith)
  | inr z ↦ rw z (c - 1, serve_goes polled handler (c - 1) goes, omega arith)
]

module _ (running : ℕ → Bool) (polled : ℕ → Trigger) (handler : Trigger → HandlerResult) where
  -- The count before an iteration that leaves one.
  run-suc :
      (n d : ℕ)
      → run running polled handler (suc n) ≡ some d
      → (c : ℕ) × (run running polled handler n ≡ some c)
        × ((iterate (running n) (polled n) handler c).run_cnt ≡ some d)
  unfolding run
  run-suc n d h = elim (Option-cases (run running polled handler n)) [
    | inl e ↦ absurd (let h' = rw e at h in cc)
    | inr (c, e) ↦ (c, e, rw e at h)
  ]

  run_le : (n d : ℕ) → run running polled handler n ≡ some d → d ≤ stop_check_period
  unfolding run
  run_le zero d h = let same : stop_check_period ≡ d = cc in omega arith
  run_le (suc n) d h =
      let (c, e, i) = run-suc n d h in
      let below = run_le n c e in
      elim (iterate_cnt (running n) (polled n) handler c d i) [
        | inl (_, _, full) ↦ omega arith
        | inr less ↦ omega arith
      ]

  counts_down :
      (k : ℕ)
      → ((n : ℕ) → k ≤ n → running n ≡ false)
      → (m n d : ℕ) → n ≡ m + k
      → run running polled handler n ≡ some d
      → d + m ≤ stop_check_period
  counts_down k off zero n d s h = omega (arith, run_le n d h)
  counts_down k off (suc m) zero d s h = absurd (omega arith)
  counts_down k off (suc m) (suc n) d s h =
      let (c, e, i) = run-suc n d h in
      let below = counts_down k off m n c (omega arith) e in
      elim (iterate_cnt (running n) (polled n) handler c d i) [
        | inl (_, on, _) ↦ absurd (let off' = off n (omega arith) in cc)
        | inr less ↦ omega arith
      ]

  -- Once `stop` has set `running` to false, at iteration `k`, the loop is left within the next 1001
  -- iterations, whatever it polls and the handler answers.
  pub stop_ends_loop :
      (k : ℕ)
      → ((n : ℕ) → k ≤ n → running n ≡ false)
      → run running polled handler (stop_check_period + 1 + k) ≡ none
  stop_ends_loop k off =
      elim (Option-cases (run running polled handler (stop_check_period + 1 + k))) [
        | inl e ↦ e
        | inr (d, e) ↦ absurd (
            let b =
              counts_down k off (stop_check_period + 1) (stop_check_period + 1 + k) d refl e in
            omega arith)
      ]

  -- As long as `running` is true and the handler never asks to stop, the loop goes on, and
  -- `run_cnt` stays from 0 to 1000.
  pub loop_goes_on :
      ((n : ℕ) → running n ≡ true)
      → ((t : Trigger) → handler t ≡ continue)
      → (n : ℕ) → (c : ℕ) × (run running polled handler n ≡ some c) × (c ≤ stop_check_period)
  unfolding run
  loop_goes_on on goes zero = (stop_check_period, refl, omega arith)
  loop_goes_on on goes (suc n) =
      let (c, e, le) = loop_goes_on on goes n in
      rw (e, on n) (iterate_goes (polled n) handler c goes le)
