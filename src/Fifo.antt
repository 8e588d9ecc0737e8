-- ===== src/Fifo.antt =====
-- The proxy FIFO: include/mscclpp/fifo_device.hpp on the device, src/core/fifo.cc and the loop of
-- src/core/proxy.cc on the host. This is the shared memory of a FIFO, the pushes under way on the
-- device, and the proxy thread. One step is one access to shared memory; steps interleave in any
-- order. The 64-bit counters do not wrap (fifo_device.hpp rules that out), and a ticket is the value
-- of `head` that a push got.
pub mod Invariant
pub mod Delivery
use mscclpp.Base.{
  ℕ, suc, ◌+◌, ◌-◌, ◌%◌, ◌≤◌, ◌<◌, ◌≡◌, Bool, true, false, ◌||◌, List, [], ◌∷◌, ◌==◌, ltb,
  if◌then◌else◌, update,
}
use mscclpp.Trigger.{Trigger, flip}
use mscclpp.Trigger.Layout.{IsPushable}

-- Where the push with a ticket stands, and its trigger after it: `unclaimed` before the fetch-add,
-- `claimed` before the test against `tailCache`, `syncing` in the loop of `sync`, `cached v` with the
-- tail `v` that ended the loop in hand, `ready` before the stores, `half` between the two stores,
-- `written` after them. When the host has cleared the slot again the trigger is `cleared`.
pub data Stage : Type 0 where
  unclaimed claimed syncing ready half written cleared : Stage
  cached : (val : ℕ) → Stage

-- The proxy thread: before `poll`, inside `poll` with `fst` in hand, in the handler, before the two
-- stores of `pop`, and between them with `curTail` in hand.
pub data Host : Type 0 where
  polling popping : Host
  got_fst : (fst : ℕ) → Host
  handling : (trigger : Trigger) → Host
  clearing : (cur_tail : ℕ) → Host

pub record System : Type 0 where
  pub size : ℕ
  pub triggers : ℕ → Trigger
  pub head : ℕ
  pub tail : ℕ
  pub tail_cache : ℕ
  pub stage : ℕ → Stage  -- by ticket
  pub pushed : ℕ → Trigger  -- the argument of `push`, by ticket
  pub host : Host
  pub handled : List Trigger  -- what the handler was called with, the last call first

abbrev pub slot : System → ℕ → ℕ
slot s ticket = ticket % s.size

abbrev pub empty : Trigger
empty = record { fst = 0; snd = 0 }

-- `Fifo::Impl`: zeroed memory.
pub init : ℕ → System
init size = record {
  size = size;
  triggers = λ _. empty;
  head = 0;
  tail = 0;
  tail_cache = 0;
  stage = λ _. unclaimed;
  pushed = λ _. empty;
  host = polling;
  handled = [];
}

-- FifoDeviceHandle::push, `prevHead = atomicFetchAdd(head, 1)`
pub claim : System → Trigger → System
claim s trigger = record s {
  head = s.head + 1;
  stage = update s.stage s.head claimed;
  pushed = update s.pushed s.head trigger;
}

-- The test `prevHead >= size + *tailCache`.
pub check : System → ℕ → System
check s ticket = record s {
  stage = update s.stage ticket (if ltb ticket (s.size + s.tail_cache) then ready else syncing);
}

-- One round of the loop in `sync(prevHead - size)`.
pub sync_load : System → ℕ → System
sync_load s ticket =
    if ltb (ticket - s.size) s.tail
    then record s { stage = update s.stage ticket (cached s.tail) }
    else s

-- `*tailCache = val`
pub sync_store : System → ℕ → ℕ → System
sync_store s ticket val = record s { tail_cache = val; stage = update s.stage ticket ready }

-- FifoDeviceHandle::poll, with the value `val` that its load of the tail gave.
pub device_poll : System → ℕ → ℕ → Bool × System
device_poll s fifo_head val =
    if ltb fifo_head val then (true, record s { tail_cache = val }) else (false, s)

-- The two stores of the portable branch of `push`: `snd` no later than `fst`.
pub store_snd : System → ℕ → System
store_snd s ticket = record s {
  triggers =
      update s.triggers (slot s ticket)
        (record { fst = (s.triggers (slot s ticket)).fst; snd = (flip (s.pushed ticket)).snd });
  stage = update s.stage ticket half;
}

pub store_fst : System → ℕ → System
store_fst s ticket = record s {
  triggers =
      update s.triggers (slot s ticket)
        (record { fst = (flip (s.pushed ticket)).fst; snd = (s.triggers (slot s ticket)).snd });
  stage = update s.stage ticket written;
}

-- The 128-bit store of the CUDA branch.
pub store_both : System → ℕ → System
store_both s ticket = record s {
  triggers = update s.triggers (slot s ticket) (flip (s.pushed ticket));
  stage = update s.stage ticket written;
}

-- Fifo::poll, the load of `fst`
pub poll_fst : System → System
poll_fst s = record s { host = got_fst (s.triggers (slot s s.tail)).fst }

-- The load of `snd`, and the test and the flip in the loop of `Proxy::start`.
pub poll_snd : System → ℕ → System
poll_snd s fst =
    let snd = (s.triggers (slot s s.tail)).snd in
    record s {
      host =
          if (fst == 0) || (snd == 0)
          then polling
          else handling (flip (record { fst = fst; snd = snd }));
    }

-- The call of the handler.
pub handle : System → Trigger → System
handle s trigger = record s { host = popping; handled = trigger ∷ s.handled }

-- Fifo::pop: `triggers[curTail % size].fst = 0`, then the store of `curTail + 1`.
pub pop_clear : System → System
pop_clear s = record s {
  triggers =
      update s.triggers (slot s s.tail)
        (record { fst = 0; snd = (s.triggers (slot s s.tail)).snd });
  stage = update s.stage s.tail cleared;
  host = clearing s.tail;
}

pub pop_advance : System → ℕ → System
pop_advance s cur_tail = record s { tail = cur_tail + 1; host = polling }

pub data Step (s : System) : System → Type 0 where
  claims : (t : Trigger) → IsPushable t → Step s (claim s t)
  checks : (k : ℕ) → s.stage k ≡ claimed → Step s (check s k)
  loads : (k : ℕ) → s.stage k ≡ syncing → Step s (sync_load s k)
  caches : (k v : ℕ) → s.stage k ≡ cached v → Step s (sync_store s k v)
  -- A thread that loaded the tail `val` may store it late; the tail has only grown since.
  polls : (k val : ℕ) → val ≤ s.tail → Step s (device_poll s k val).1
  stores_snd : (k : ℕ) → s.stage k ≡ ready → Step s (store_snd s k)
  stores_fst : (k : ℕ) → s.stage k ≡ half → Step s (store_fst s k)
  stores_both : (k : ℕ) → s.stage k ≡ ready → Step s (store_both s k)
  polls_fst : s.host ≡ polling → Step s (poll_fst s)
  polls_snd : (f : ℕ) → s.host ≡ got_fst f → Step s (poll_snd s f)
  handles : (t : Trigger) → s.host ≡ handling t → Step s (handle s t)
  clears : s.host ≡ popping → Step s (pop_clear s)
  advances : (c : ℕ) → s.host ≡ clearing c → Step s (pop_advance s c)

pub data Reach (size : ℕ) : System → Type 0 where
  start : Reach size (init size)
  later : {s t : System} → Reach size s → Step s t → Reach size t
