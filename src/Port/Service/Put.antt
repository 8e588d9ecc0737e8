-- ===== src/Port/Service/Put.antt =====
-- src/core/port_channel.cc and include/mscclpp/port_channel_device.hpp from end to end: what the service
-- calls on the connection for each operation of a channel.
use mscclpp.Base.{
  ℕ, ◌<◌, ◌≡◌, refl, true, some, [], ◌∷◌, get_elem?, get_elem?-append_last, get_elem?-append_lt,
  length, ok, arith, update_self,
}
use mscclpp.Trigger.{asserted, make_trigger, fields}
use mscclpp.Trigger.Layout.{fields-make_trigger}
use mscclpp.Port.Device.{Channel, put_with_signal_and_flush}
use mscclpp.Port.Service.{
  write, signal, request_flush, Service, posted, write_data, write_flag, finish, handle_trigger,
  add_memory, next_memory_id,
}

-- A channel whose ids the service gave out.
pub record IsBound (s : Service) (ch : Channel) (conn dst src : ℕ) : Type 0 where
  pub semaphore : get_elem? s.semaphores ch.semaphore_id ≡ some conn
  pub dst_memory : get_elem? s.memories ch.dst ≡ some dst
  pub src_memory : get_elem? s.memories ch.src ≡ some src

-- What `putWithSignalAndFlush` pushes reaches the connection as the write of the bytes between the two
-- memories, then the signal, then the request for a flush, where the constructor's assertions hold; its
-- position is then the pending one and no request is in flight.
pub put_with_signal_and_flush_calls :
    (s : Service) (ch : Channel) (conn dst src dst_offset src_offset size : ℕ)
    → IsBound s ch conn dst src
    → asserted (put_with_signal_and_flush ch dst_offset src_offset size) ≡ true
    → (t : Service) × (handle_trigger s
          (fields (make_trigger (put_with_signal_and_flush ch dst_offset src_offset size)))
        ≡ ok t)
      × (t.calls
          ≡ request_flush conn
            ∷ signal conn ch.semaphore_id
            ∷ write conn dst dst_offset src src_offset size
            ∷ s.calls)
      × (t.pending_flush_pos conn ≡ some s.tail)
      × (t.inflight_requests conn ≡ 0)
unfolding handle_trigger write_data write_flag finish put_with_signal_and_flush
put_with_signal_and_flush_calls s ch conn dst src dst_offset src_offset size b h =
    let r = put_with_signal_and_flush ch dst_offset src_offset size in
    let written =
      posted (posted s conn (write conn dst dst_offset src src_offset size)) conn
        (signal conn ch.semaphore_id) in
    rw (fields-make_trigger r h, b.semaphore, b.dst_memory, b.src_memory)
      (
        _,
        refl,
        refl,
        update_self s.pending_flush_pos conn (some s.tail),
        update_self written.inflight_requests conn 0,
      )

-- `addMemory` returns the id that `nextMemoryId` announces for any count but 0; the memory is found
-- under it, and every earlier id still means the same memory.
pub add_memory_lem :
    (s : Service) (memory count : ℕ)
    → 0 < count
    → (next_memory_id s count ≡ ok (add_memory s memory).1)
      × (get_elem? (add_memory s memory).0.memories (add_memory s memory).1 ≡ some memory)
      × ((i : ℕ)
          → i < length s.memories
          → get_elem? (add_memory s memory).0.memories i ≡ get_elem? s.memories i)
unfolding add_memory next_memory_id
add_memory_lem s memory count h = (
  ground arith,
  get_elem?-append_last s.memories memory,
  get_elem?-append_lt s.memories (memory ∷ []),
)
