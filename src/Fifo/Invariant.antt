-- ===== src/Fifo/Invariant.antt =====
-- What holds of a FIFO in every reachable state.
mod Defs
mod Device
mod Host
pub use Defs.{StageInv, gone, HostInv, Inv}
unfoldable pub use Defs.{newest}
pub use Device.{is_claimed, at_stage}
use Device.{
  claim-Inv, check-Inv, sync_load-Inv, sync_store-Inv, device_poll-Inv, store_snd-Inv,
  store_fst-Inv, store_both-Inv,
}
use Host.{poll_fst-Inv, poll_snd-Inv, handle-Inv, pop_clear-Inv, pop_advance-Inv}
use mscclpp.Base.{ℕ, ◌<◌, refl, arith}
use mscclpp.Fifo.{
  System, Step, claims, checks, loads, caches, polls, stores_snd, stores_fst, stores_both,
  polls_fst, polls_snd, handles, clears, advances, Reach, start, later, init,
}

init-Inv : (size : ℕ) → 0 < size → Inv (init size)
unfolding init newest
init-Inv size h = record {
  some = h;
  order = omega arith;
  behind = omega arith;
  fresh = λ k _. refl;
  valid = λ k lt. absurd (omega arith);
  stages = λ k. (omega arith, λ _. refl);
  host = refl;
}

Step-Inv : (s t : System) → Step s t → Inv s → Inv t
Step-Inv s t (claims u ok) v = claim-Inv s u ok v
Step-Inv s t (checks k e) v = check-Inv s k e v
Step-Inv s t (loads k e) v = sync_load-Inv s k e v
Step-Inv s t (caches k c e) v = sync_store-Inv s k c e v
Step-Inv s t (polls k val le) v = device_poll-Inv s k val le v
Step-Inv s t (stores_snd k e) v = store_snd-Inv s k e v
Step-Inv s t (stores_fst k e) v = store_fst-Inv s k e v
Step-Inv s t (stores_both k e) v = store_both-Inv s k e v
Step-Inv s t (polls_fst e) v = poll_fst-Inv s e v
Step-Inv s t (polls_snd f e) v = poll_snd-Inv s f e v
Step-Inv s t (handles u e) v = handle-Inv s u e v
Step-Inv s t (clears e) v = pop_clear-Inv s e v
Step-Inv s t (advances c e) v = pop_advance-Inv s c e v

pub Reach-Inv : (size : ℕ) (s : System) → 0 < size → Reach size s → Inv s
Reach-Inv size s h start = init-Inv size h
Reach-Inv size s h (later {s = r} reach step) = Step-Inv r s step (Reach-Inv size r h reach)
