-- ===== src/Fifo/Invariant/Device.antt =====
-- The steps of a push keep the invariant.
use mscclpp.Base.{
  ℕ, suc, ◌+◌, ◌-◌, ◌≤◌, ◌<◌, ◌≡◌, ◌≢◌, refl, ◌∙◌, arith, update, update_self, update_ne,
  all_update, dec_lt, List, Bool-cases, ltb, ltb→lt, if◌then◌else◌, inl, inr,
}
use mscclpp.Trigger.{Trigger, flip}
use mscclpp.Trigger.Layout.{IsPushable}
use mscclpp.Fifo.{
  System, Stage, unclaimed, claimed, syncing, ready, half, written, cleared, cached, Host, polling,
  popping, got_fst, handling, clearing, slot, claim, check, sync_load, sync_store, device_poll,
  store_snd, store_fst, store_both,
}
use mscclpp.Fifo.Invariant.Defs.{StageInv, StageInv-store, HostInv, newest-update, gone, Inv}

HostInv-stage :
    (pushed : ℕ → Trigger) (stage : ℕ → Stage) (tail : ℕ) (handled : List Trigger) (h : Host)
    (k : ℕ) (st : Stage)
    → stage k ≢ written
    → stage k ≢ cleared
    → HostInv pushed stage tail handled h
    → HostInv pushed (update stage k st) tail handled h
HostInv-stage pushed stage tail handled polling k st nw nc v = v
HostInv-stage pushed stage tail handled popping k st nw nc v = ground arith
HostInv-stage pushed stage tail handled (got_fst f) k st nw nc v =
    (v.0, λ nz. ground (arith, v.1 nz))
HostInv-stage pushed stage tail handled (handling t) k st nw nc v = ground arith
HostInv-stage pushed stage tail handled (clearing c) k st nw nc v = ground arith

pub is_claimed : (s : System) (k : ℕ) → Inv s → s.stage k ≢ unclaimed → k < s.head
is_claimed s k v ne = elim (dec_lt k s.head) [
  | yes lt ↦ lt
  | no ge ↦ absurd (ne (v.fresh k (omega arith)))
]

-- A push that moves on, with a store to its own slot or none, and to the cache of the tail.
Inv-move :
    (s : System) (cells : ℕ → Trigger) (cache k : ℕ) (st : Stage)
    → Inv s
    → s.stage k ≢ unclaimed
    → s.stage k ≢ written
    → s.stage k ≢ cleared
    → cache ≤ s.tail
    → StageInv s.size s.tail (gone s.tail s.host) (cells (slot s k)) (s.pushed k) k st
    → ((j : ℕ)
        → k ≢ j
        → StageInv s.size s.tail (gone s.tail s.host) (cells (slot s j)) (s.pushed j) j (s.stage j))
    → Inv (record s { triggers = cells; tail_cache = cache; stage = update s.stage k st })
Inv-move s cells cache k st v nu nw nc le here rest = record {
  some = v.some;
  order = v.order;
  behind = le;
  fresh = λ j h. update_ne s.stage k j st (λ e. omega (arith, is_claimed s k v nu)) ∙ v.fresh j h;
  valid = v.valid;
  stages =
      all_update
        (λ j t. StageInv s.size s.tail (gone s.tail s.host) (cells (slot s j)) (s.pushed j) j t)
        s.stage k st here rest;
  host = HostInv-stage s.pushed s.stage s.tail s.handled s.host k st nw nc v.host;
}

pub at_stage :
    (s : System) (k : ℕ) (st : Stage)
    → s.stage k ≡ st
    → Inv s
    → StageInv s.size s.tail (gone s.tail s.host) (s.triggers (slot s k)) (s.pushed k) k st
at_stage s k st e v = rw e at (v.stages k)

-- The tickets before the new one keep their triggers.
HostInv-pushed :
    (pushed : ℕ → Trigger) (stage : ℕ → Stage) (tail head : ℕ) (handled : List Trigger) (h : Host)
    (t : Trigger)
    → tail ≤ head
    → (stage tail ≢ unclaimed → tail < head)
    → HostInv pushed stage tail handled h
    → HostInv (update pushed head t) stage tail handled h
HostInv-pushed pushed stage tail head handled polling t le lt v =
    rw (newest-update pushed tail head t le) v
HostInv-pushed pushed stage tail head handled popping t le lt v =
    (rw (newest-update pushed (suc tail) head t (lt (ground arith))) v.0, v.1)
HostInv-pushed pushed stage tail head handled (got_fst f) t le lt v = (
  rw (newest-update pushed tail head t le) v.0,
  λ nz. (
    (v.1 nz).0,
    rw (update_ne pushed head tail t (omega (arith, lt (ground (arith, v.1 nz))))) (v.1 nz).1,
  ),
)
HostInv-pushed pushed stage tail head handled (handling u) t le lt v = (
  rw (newest-update pushed tail head t le) v.0,
  v.1,
  rw (update_ne pushed head tail t (omega (arith, lt (ground arith)))) v.2,
)
HostInv-pushed pushed stage tail head handled (clearing c) t le lt v =
    (rw (newest-update pushed (suc tail) head t (lt (ground arith))) v.0, v.1, v.2)

-- A new ticket has a free slot, or none in the window yet.
pub claim-Inv : (s : System) (t : Trigger) → IsPushable t → Inv s → Inv (claim s t)
unfolding claim
claim-Inv s t ok v = record {
  some = v.some;
  order = omega (arith, v.order);
  behind = v.behind;
  fresh = λ k h. update_ne s.stage s.head k claimed (omega arith) ∙ v.fresh k (omega arith);
  valid =
      all_update (λ k u. k < s.head + 1 → IsPushable u) s.pushed s.head t (λ _. ok)
        (λ k ne h. v.valid k (omega arith));
  stages =
      all_update
        (λ j st.
          StageInv s.size s.tail (gone s.tail s.host) (s.triggers (slot s j))
            (update s.pushed s.head t j) j st)
        s.stage s.head claimed (at_stage s s.head unclaimed (v.fresh s.head (omega arith)) v)
        (λ j ne. rw (update_ne s.pushed s.head j t ne) (v.stages j));
  host =
      HostInv-stage (update s.pushed s.head t) s.stage s.tail s.handled s.host s.head claimed
        (ground (arith, v.fresh s.head (omega arith)))
        (ground (arith, v.fresh s.head (omega arith)))
        (HostInv-pushed s.pushed s.stage s.tail s.head s.handled s.host t v.order
          (is_claimed s s.tail v) v.host);
}

pub check-Inv : (s : System) (k : ℕ) → s.stage k ≡ claimed → Inv s → Inv (check s k)
unfolding check
check-Inv s k e v =
    Inv-move s s.triggers s.tail_cache k _ v (ground arith) (ground arith) (ground arith) v.behind
      here (λ j _. v.stages j)
  where
    old : StageInv s.size s.tail (gone s.tail s.host) (s.triggers (slot s k)) (s.pushed k) k claimed
    old = at_stage s k claimed e v

    here :
        StageInv s.size s.tail
          (gone s.tail s.host)
          (s.triggers (slot s k))
          (s.pushed k)
          k
          (if ltb k (s.size + s.tail_cache) then ready else syncing)
    here = elim (Bool-cases (ltb k (s.size + s.tail_cache))) [
      | inl t ↦ rw t (old, omega (arith, ltb→lt k _ t, v.behind))
      | inr f ↦ rw f (old, ground arith)
    ]

pub sync_load-Inv : (s : System) (k : ℕ) → s.stage k ≡ syncing → Inv s → Inv (sync_load s k)
unfolding sync_load
sync_load-Inv s k e v = elim (Bool-cases (ltb (k - s.size) s.tail)) [
  | inl t ↦ rw t (
      Inv-move s s.triggers s.tail_cache k (cached s.tail) v (ground arith) (ground arith)
        (ground arith) v.behind
        (
          (at_stage s k syncing e v).0,
          omega arith,
          omega (arith, ltb→lt (k - s.size) s.tail t, v.some),
        )
        (λ j _. v.stages j))
  | inr f ↦ rw f v
]

pub sync_store-Inv : (s : System) (k c : ℕ) → s.stage k ≡ cached c → Inv s → Inv (sync_store s k c)
unfolding sync_store
sync_store-Inv s k c e v =
    let old = at_stage s k (cached c) e v in
    Inv-move s s.triggers c k ready v (ground arith) (ground arith) (ground arith) old.1
      (old.0, omega (arith, old.1, old.2)) (λ j _. v.stages j)

pub device_poll-Inv : (s : System) (k val : ℕ) → val ≤ s.tail → Inv s → Inv (device_poll s k val).1
unfolding device_poll
device_poll-Inv s k val le v = elim (Bool-cases (ltb k val)) [
  | inl t ↦ rw t (record {
    some = v.some;
    order = v.order;
    behind = le;
    fresh = v.fresh;
    valid = v.valid;
    stages = v.stages;
    host = v.host;
  })
  | inr f ↦ rw f v
]

pub store_snd-Inv : (s : System) (k : ℕ) → s.stage k ≡ ready → Inv s → Inv (store_snd s k)
unfolding store_snd
store_snd-Inv s k e v =
    let old = at_stage s k ready e v in
    let cell : Trigger = record {
      fst = (s.triggers (slot s k)).fst;
      snd = (flip (s.pushed k)).snd;
    } in
    Inv-move s (update s.triggers (slot s k) cell) s.tail_cache k half v (ground arith)
      (ground arith) (ground arith) v.behind
      (rw (update_self s.triggers (slot s k) cell) (old.0, old.1, refl))
      (λ j ne. StageInv-store s.size s.tail _ k j s.triggers cell _ _ old.0.0 old.1 ne (v.stages j))

pub store_fst-Inv : (s : System) (k : ℕ) → s.stage k ≡ half → Inv s → Inv (store_fst s k)
unfolding store_fst
store_fst-Inv s k e v =
    let old = at_stage s k half e v in
    let cell : Trigger = record {
      fst = (flip (s.pushed k)).fst;
      snd = (s.triggers (slot s k)).snd;
    } in
    Inv-move s (update s.triggers (slot s k) cell) s.tail_cache k written v (ground arith)
      (ground arith) (ground arith) v.behind
      (rw (update_self s.triggers (slot s k) cell)
        (old.0.0, old.1, λ i. record { fst = (flip (s.pushed k)).fst; snd = old.2 i }))
      (λ j ne. StageInv-store s.size s.tail _ k j s.triggers cell _ _ old.0.0 old.1 ne (v.stages j))

pub store_both-Inv : (s : System) (k : ℕ) → s.stage k ≡ ready → Inv s → Inv (store_both s k)
unfolding store_both
store_both-Inv s k e v =
    let old = at_stage s k ready e v in
    let cell : Trigger = flip (s.pushed k) in
    Inv-move s (update s.triggers (slot s k) cell) s.tail_cache k written v (ground arith)
      (ground arith) (ground arith) v.behind
      (rw (update_self s.triggers (slot s k) cell) (old.0.0, old.1, refl))
      (λ j ne. StageInv-store s.size s.tail _ k j s.triggers cell _ _ old.0.0 old.1 ne (v.stages j))
