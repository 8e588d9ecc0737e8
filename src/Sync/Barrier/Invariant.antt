-- ===== src/Sync/Barrier/Invariant.antt =====
-- `DeviceSyncer` of include/mscclpp/concurrency_device.hpp: what holds between any two steps. All blocks
-- are in call `r` of `sync` or in the next one, and the three counters belong to calls `r` to `r + 2`.
pub mod Steps
use mscclpp.Base.{
  ℕ, zero, suc, ◌+◌, ◌-◌, ◌*◌, ◌%◌, ◌^◌, ◌≤◌, ◌<◌, ◌≡◌, refl, sym, ap, ◌∙◌, ◌≢◌, lt→ltb, ◌⊎◌, inl,
  inr, Bool, true, false, ◌||◌, ◌&&◌, ltb, leb, ◌==◌, if◌then◌else◌, update, update_self, update_ne,
  all_update, u32, tally, tally-update, tally-eq-zero, tally-lt, tally_mono, tally-disjoint, bit,
  arith, Bool-cases, ltb_self, ==_self, ==_iff, tally-full, tally-le, ℕ_discrete, subst, dec_lt,
  dec_le,
}
use mscclpp.Sync.Barrier.{
  Phase, outside, indexed, zeroed, polling, passed, Block, Syncer, num_counters, init, to_phase,
  return, enter, reset, arrive, poll, leave, Step, enters, resets, arrives, polls, leaves, Reach,
  start, later, has_reset, has_arrived, has_passed, arrived,
}

pub false_ne_true : {A : Type 0} → false ≡ true → A
false_ne_true h = absurd (cc)

abbrev pub target : ℕ → ℕ
target k = (k + 1) % 3

-- The counter of call `k` counts the blocks that have arrived in it.
abbrev pub Counted : ℕ → Syncer → ℕ → Type 0
Counted n s k = s.count (target k) ≡ tally (arrived k) s.blocks n

-- The `countIdx` of a phase in call `k`, or the index that the call will read.
abbrev pub Indexed : ℕ → ℕ → Phase → Type 0
Indexed current k outside = current ≡ k % 3
Indexed current k (indexed c) = c ≡ target k
Indexed current k (zeroed c) = c ≡ target k
Indexed current k (polling c) = c ≡ target k
Indexed current k (passed c) = c ≡ target k

-- The last call whose counter the block has seen or made zero.
abbrev pub reset_to : Block → ℕ
reset_to b = if has_reset b.phase then b.rounds + 1 else b.rounds

abbrev pub beyond : ℕ → Block → Bool
beyond r b = ltb r b.rounds || has_passed b.phase

pub record Local (r current : ℕ) (b : Block) : Type 0 where
  pub low : r ≤ b.rounds
  pub high : b.rounds ≤ r + 1
  pub index : Indexed current b.rounds b.phase
  pub early : has_passed b.phase ≡ true → b.rounds ≡ r

pub record Inv (n r : ℕ) (s : Syncer) : Type 0 where
  pub each : (j : ℕ) → j < n → Local r s.current_count_idx (s.blocks j)
  pub counted : (j : ℕ) → j < n → (k : ℕ) → r ≤ k → k ≤ reset_to (s.blocks j) → Counted n s k
  pub closed :
      (j : ℕ)
      → j < n
      → beyond r (s.blocks j) ≡ true
      → (i : ℕ) → i < n
      → arrived r (s.blocks i) ≡ true

-- A block's new state that has arrived in the same calls does not change what the counters count.
pub same_tally :
    (n k i : ℕ) (blocks : ℕ → Block) (new : Block)
    → i < n
    → arrived k new ≡ arrived k (blocks i)
    → tally (arrived k) (update blocks i new) n ≡ tally (arrived k) blocks n
same_tally n k i blocks new hi e =
    let t = tally-update (arrived k) blocks new n i hi in let t' = rw e at t in omega arith

pub closed_update :
    (n r i : ℕ) (blocks : ℕ → Block) (new : Block)
    → (arrived r (blocks i) ≡ true → arrived r new ≡ true)
    → (beyond r new ≡ true → (k : ℕ) → k < n → arrived r (blocks k) ≡ true)
    → ((j : ℕ) → j < n → beyond r (blocks j) ≡ true → (k : ℕ) → k < n → arrived r (blocks k) ≡ true)
    → (j : ℕ) → j < n
    → beyond r (update blocks i new j) ≡ true
    → (k : ℕ) → k < n
    → arrived r (update blocks i new k) ≡ true
closed_update n r i blocks new stays all closed j hj far k hk =
    all_update (λ j b. j < n → beyond r b ≡ true → arrived r (update blocks i new k) ≡ true) blocks
      i new (λ _ b. arrived_now (all b)) (λ j ne h b. arrived_now (closed j h b)) j hj far
  where
    arrived_now :
        ((k : ℕ) → k < n → arrived r (blocks k) ≡ true) → arrived r (update blocks i new k) ≡ true
    arrived_now h =
        all_update (λ k b. k < n → arrived r b ≡ true) blocks i new (λ h'. stays (h i h'))
          (λ j ne. h j) k hk

-- A step that keeps the counters, and in which calls block `i` has arrived.
pub quiet-Counted :
    (n r i : ℕ) (s t : Syncer) (new : Block)
    → i < n
    → ((k : ℕ) → arrived k new ≡ arrived k (s.blocks i))
    → reset_to new ≡ reset_to (s.blocks i)
    → t.count ≡ s.count
    → t.blocks ≡ update s.blocks i new
    → ((j : ℕ) → j < n → (k : ℕ) → r ≤ k → k ≤ reset_to (s.blocks j) → Counted n s k)
    → (j : ℕ) → j < n
    → (k : ℕ) → r ≤ k
    → k ≤ reset_to (t.blocks j)
    → Counted n t k
quiet-Counted n r i s t new hi same same_reset ec eb counted j hj k hr hk =
    rw (ec, eb, same_tally n k i s.blocks new hi (same k)) (from_old (rw eb at hk))
  where
    from_old : k ≤ reset_to (update s.blocks i new j) → Counted n s k
    from_old =
        all_update (λ j b. j < n → k ≤ reset_to b → Counted n s k) s.blocks i new
          (λ h h'. counted i h k hr (rw (sym same_reset) h')) (λ j ne h h'. counted j h k hr h') j
          hj

-- Distinct calls among three in a row have distinct counters.
pub target_ne : (r k q : ℕ) → r ≤ k → k ≤ r + 2 → r ≤ q → q ≤ r + 2 → k ≢ q → target q ≢ target k
target_ne r k q h h' p p' ne e = omega arith

pub reset_to_le : (b : Block) → reset_to b ≤ b.rounds + 1
reset_to_le b = elim (Bool-cases (has_reset b.phase)) [
  | inl t ↦ rw t omega arith
  | inr t ↦ rw t omega arith
]

-- Nobody has arrived in a call after that of a block which has not arrived yet.
pub none_ahead :
    (n r i : ℕ) (s : Syncer)
    → i < n
    → has_arrived (s.blocks i).phase ≡ false
    → Inv n r s
    → tally (arrived ((s.blocks i).rounds + 1)) s.blocks n ≡ 0
none_ahead n r i s hi e v = tally-eq-zero (arrived ((s.blocks i).rounds + 1)) s.blocks n λ j hj.
    let l = v.each i hi in
    let m = v.each j hj in
    let not_ahead : (s.blocks j).rounds ≢ (s.blocks i).rounds + 1 = λ ahead.
      let a = v.closed j hj (rw (lt→ltb r (s.blocks j).rounds (omega (arith, l.low))) refl) i hi in
      let q : (s.blocks i).rounds ≡ r = omega (arith, l.low, m.high) in
      false_ne_true (rw (e, q, ltb_self r, ==_self r) at a) in
    ground (arith, l.low, m.high)

-- A step that gives the counter of call `q` the value that counts it.
pub recounted :
    (n r i q val : ℕ) (s t : Syncer) (new : Block)
    → i < n
    → r ≤ q
    → q ≤ r + 2
    → ((j : ℕ) → j < n → reset_to (s.blocks j) ≤ r + 2)
    → reset_to new ≤ r + 2
    → ((k : ℕ) → k ≢ q → arrived k new ≡ arrived k (s.blocks i))
    → ((k : ℕ) → k ≢ q → k ≤ reset_to new → k ≤ reset_to (s.blocks i))
    → t.count ≡ update s.count (target q) val
    → t.blocks ≡ update s.blocks i new
    → val ≡ tally (arrived q) (update s.blocks i new) n
    → ((j : ℕ) → j < n → (k : ℕ) → r ≤ k → k ≤ reset_to (s.blocks j) → Counted n s k)
    → (j : ℕ) → j < n
    → (k : ℕ) → r ≤ k
    → k ≤ reset_to (t.blocks j)
    → Counted n t k
recounted n r i q val s t new hi rq qr bound bound' same same_reset ec eb ev counted j hj k hr hk =
    elim (ℕ_discrete k q) [
      | yes e ↦ rw (ec, eb, e, update_self s.count (target q) val) ev
      | no ne ↦
          rw
            (
              ec,
              eb,
              update_ne s.count (target q) (target k) val
                  (target_ne r k q hr (below (rw eb at hk)) rq qr ne),
              same_tally n k i s.blocks new hi (same k ne),
            )
            (from_old ne (rw eb at hk))
    ]
  where
    below : k ≤ reset_to (update s.blocks i new j) → k ≤ r + 2
    below h =
        all_update (λ j b. j < n → k ≤ reset_to b → k ≤ r + 2) s.blocks i new (λ _ h. omega arith)
          (λ j ne hj h. omega (arith, bound j hj)) j hj h

    from_old : k ≢ q → k ≤ reset_to (update s.blocks i new j) → Counted n s k
    from_old ne =
        all_update (λ j b. j < n → k ≤ reset_to b → Counted n s k) s.blocks i new
          (λ h h'. counted i h k hr (same_reset k ne h')) (λ j _ h h'. counted j h k hr h') j hj

pub reset_to_bound :
    (n r : ℕ) (s : Syncer) → Inv n r s → (j : ℕ) → j < n → reset_to (s.blocks j) ≤ r + 2
reset_to_bound n r s v j hj = omega (arith, reset_to_le (s.blocks j), (v.each j hj).high)

pub arrived_rounds : (k : ℕ) (b : Block) → arrived k b ≡ true → k ≤ b.rounds
arrived_rounds k b h = ground arith
