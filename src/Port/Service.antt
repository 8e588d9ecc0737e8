-- ===== src/Port/Service.antt =====
-- `ProxyService` of src/core/port_channel.cc. Connections are numbers; what the service calls on them is
-- a list, and whether `progressFlush` finds a connection drained is an argument. The service runs on
-- the proxy thread alone. Positions of the FIFO do not wrap.
pub mod Effects
pub mod Queue
pub mod Asked
pub mod Pending
pub mod Flush
pub mod Put
mod Tests
use mscclpp.Base.{
  ℕ, zero, suc, ◌+◌, ◌-◌, ◌^◌, ◌≡◌, ◌≢◌, Bool, true, false, not, ◌&&◌, Option, none, some, List, [],
  ◌∷◌, get_elem?, length, bit_and, Result, ok, err, out_of_range, thrown, invalid_usage, ◌>>=◌,
  ◌==◌, leb, if◌then◌else◌, update, ◌++◌,
}
use mscclpp.Trigger.{Trigger, Request, trigger_data, trigger_flag, trigger_sync, fields}

-- A call of a connection: `write`, `updateAndSync` of the token of a semaphore, `requestFlush`, `flush`.
pub data Call : Type 0 where
  write : (conn dst dst_offset src src_offset size : ℕ) → Call
  signal : (conn semaphore_id : ℕ) → Call
  request_flush : (conn : ℕ) → Call
  flush : (conn : ℕ) → Call

pub record Service : Type 0 where
  pub semaphores : List ℕ  -- the connection of each semaphore
  pub memories : List ℕ
  pub max_write_queue_size : ℕ → Option ℕ  -- by connection; `none` for -1
  pub inflight_requests : ℕ → ℕ  -- by connection
  pub pending_flush_pos : ℕ → Option ℕ  -- by connection
  pub flush_done : ℕ → ℕ  -- by connection, the word that the device polls
  pub tail : ℕ  -- of the FIFO
  pub calls : List Call  -- the last call first

-- `ProxyService::ProxyService`
pub init : (ℕ → Option ℕ) → Service
init max_write_queue_size = record {
  semaphores = [];
  memories = [];
  max_write_queue_size = max_write_queue_size;
  inflight_requests = λ _. 0;
  pending_flush_pos = λ _. none;
  flush_done = λ _. 0;
  tail = 0;
  calls = [];
}

-- `addSemaphore`, with the connection of the semaphore
pub add_semaphore : Service → ℕ → Service × ℕ
add_semaphore s conn = (record s { semaphores = s.semaphores ++ (conn ∷ []) }, length s.semaphores)

-- `addMemory`
pub add_memory : Service → ℕ → Service × ℕ
add_memory s memory = (record s { memories = s.memories ++ (memory ∷ []) }, length s.memories)

-- `nextMemoryId`
pub next_memory_id : Service → ℕ → Result ℕ
next_memory_id s count = if count == 0 then err (thrown invalid_usage) else ok (length s.memories)

abbrev pub in_range : Option ℕ → Result ℕ
in_range none = err out_of_range
in_range (some x) = ok x

-- `xs[i]` on a `std::vector`
abbrev pub at : List ℕ → ℕ → Result ℕ
at xs i = in_range (get_elem? xs i)

abbrev pub has : Request → ℕ → Bool
has r flag = not (bit_and r.type flag == 0)

-- A call that counts as a request in flight.
abbrev pub posted : Service → ℕ → Call → Service
posted s conn c = record s {
  calls = c ∷ s.calls;
  inflight_requests = update s.inflight_requests conn (s.inflight_requests conn + 1);
}

-- The branch of `TriggerData`
pub write_data : Service → ℕ → Request → Result Service
write_data s conn r =
    if has r trigger_data
    then (do
      dst ← at s.memories r.dst_id
      src ← at s.memories r.src_id
      ok (posted s conn (write conn dst r.dst_offset src r.src_offset r.bytes)))
    else ok s

-- The branch of `TriggerFlag`
pub write_flag : Service → ℕ → Request → Service
write_flag s conn r = if has r trigger_flag then posted s conn (signal conn r.semaphore_id) else s

-- Whether the flow control flushes: `maxWriteQueueSize != -1 && numRequests >= maxWriteQueueSize`
abbrev pub is_full : Option ℕ → ℕ → Bool
is_full none requests = false
is_full (some size) requests = leb size requests

-- The branch of `TriggerSync`, and of the flow control without it
pub finish : Service → ℕ → Request → Service
finish s conn r =
    if has r trigger_sync
    then record s {
      calls = request_flush conn ∷ s.calls;
      pending_flush_pos = update s.pending_flush_pos conn (some s.tail);
      inflight_requests = update s.inflight_requests conn 0;
    }
    else if is_full (s.max_write_queue_size conn) (s.inflight_requests conn)
    then record s {
      calls = flush conn ∷ s.calls;
      inflight_requests = update s.inflight_requests conn 0;
    }
    else s

-- `handleTrigger`
pub handle_trigger : Service → Request → Result Service
handle_trigger s r = do
  conn ← at s.semaphores r.semaphore_id
  written ← write_data s conn r
  ok (finish (write_flag written conn r) conn r)

-- The proxy's call of the handler and its `pop`
pub handle_and_pop : Service → Request → Result Service
handle_and_pop s r = handle_trigger s r >>= λ t. ok (record t { tail = t.tail + 1 })

abbrev pub progressed_pos : Bool → Option ℕ → Option ℕ
progressed_pos drained pos = if drained then none else pos

abbrev pub published : Bool → Option ℕ → ℕ → ℕ
published drained none done = done
published drained (some pos) done = if drained then pos + 1 else done

-- `progressFlushes`: the order of the entries does not matter, each is about its own connection.
pub progress_flushes : (ℕ → Bool) → Service → Service
progress_flushes drained s = record s {
  flush_done = λ c. published (drained c) (s.pending_flush_pos c) (s.flush_done c);
  pending_flush_pos = λ c. progressed_pos (drained c) (s.pending_flush_pos c);
}

-- The loop of `stopProxy`; a round with nothing pending changes nothing.
pub drain : ℕ → (ℕ → ℕ → Bool) → Service → Service
drain zero drained s = s
drain (suc rounds) drained s = drain rounds drained (progress_flushes (drained rounds) s)

abbrev pub sentinel : ℕ
sentinel = 2 ^ 64 - 1

abbrev pub final : Option ℕ → ℕ → ℕ
final none done = done
final (some _) done = sentinel

-- `stopProxy`, once the proxy thread has ended
pub stop_proxy : (ℕ → ℕ → Bool) → Service → Service
stop_proxy drained s =
    let t = drain 1000 drained s in
    record t {
      flush_done = λ c. final (t.pending_flush_pos c) (t.flush_done c);
      pending_flush_pos = λ _. none;
    }

-- What happened, the last event first: a trigger with `TriggerSync` at a position, any other trigger,
-- a call of `progressFlushes`, and the calls that add semaphores and memories.
pub data Event : Type 0 where
  synced : (conn pos : ℕ) → Event
  handled added : Event
  progressed : (drained : ℕ → Bool) → Event

abbrev pub event_of : Option ℕ → Bool → ℕ → Event
event_of (some conn) true pos = synced conn pos
event_of _ _ pos = handled

abbrev pub event : Service → Request → Event
event s r = event_of (get_elem? s.semaphores r.semaphore_id) (has r trigger_sync) s.tail

pub data Run (q : ℕ → Option ℕ) : Service → List Event → Type 0 where
  start : Run q (init q) []
  adds_semaphore :
      {s : Service} {es : List Event} (conn : ℕ)
      → Run q s es
      → Run q (add_semaphore s conn).0 (added ∷ es)
  adds_memory :
      {s : Service} {es : List Event} (memory : ℕ)
      → Run q s es
      → Run q (add_memory s memory).0 (added ∷ es)
  handles :
      {s t : Service} {es : List Event} (r : Request)
      → Run q s es
      → handle_and_pop s r ≡ ok t
      → Run q t (event s r ∷ es)
  progresses :
      {s : Service} {es : List Event} (drained : ℕ → Bool)
      → Run q s es
      → Run q (progress_flushes drained s) (progressed drained ∷ es)
