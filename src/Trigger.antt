-- ===== src/Trigger.antt =====
-- include/mscclpp/fifo_device.hpp: the 128-bit work element of the FIFO and its bit fields.
pub mod Layout
mod Tests
use mscclpp.Base.{ℕ, ◌+◌, ◌*◌, ◌/◌, ◌%◌, ◌^◌, bit_xor, u64, Bool, ◌&&◌, not, ltb, ◌==◌}

-- `TriggerBitsSize`, `TriggerBitsOffset`, `TriggerBitsMemoryId`, `TriggerBitsType` and
-- `TriggerBitsSemaphoreId`
abbrev pub bits_size : ℕ
bits_size = 32

abbrev pub bits_offset : ℕ
bits_offset = 32

abbrev pub bits_memory_id : ℕ
bits_memory_id = 9

abbrev pub bits_type : ℕ
bits_type = 3

abbrev pub bits_semaphore_id : ℕ
bits_semaphore_id = 10

-- `TriggerData`, `TriggerFlag` and `TriggerSync`
abbrev pub trigger_data : ℕ
trigger_data = 1

abbrev pub trigger_flag : ℕ
trigger_flag = 2

abbrev pub trigger_sync : ℕ
trigger_sync = 4

-- `ProxyTrigger`: two 64-bit words.
pub record Trigger : Type 0 where
  pub fst : ℕ
  pub snd : ℕ

-- The arguments of its constructor, which are also its bit fields.
pub record Request : Type 0 where
  pub type : ℕ
  pub dst_id : ℕ
  pub dst_offset : ℕ
  pub src_id : ℕ
  pub src_offset : ℕ
  pub bytes : ℕ
  pub semaphore_id : ℕ

-- What the `MSCCLPP_ASSERT_DEVICE` lines of the constructor demand. A release build does not check it.
unfoldable pub asserted : Request → Bool
asserted r =
    ltb r.type (2 ^ bits_type)
    && ltb r.dst_id (2 ^ bits_memory_id)
    && ltb r.dst_offset (2 ^ bits_offset)
    && ltb r.src_id (2 ^ bits_memory_id)
    && ltb r.src_offset (2 ^ bits_offset)
    && not (r.bytes == 0)
    && ltb r.bytes (2 ^ bits_size)
    && ltb r.semaphore_id (2 ^ bits_semaphore_id)

-- `x & mask` for a mask of `k` ones, and `x << k` on `uint64_t`.
abbrev low_bits : ℕ → ℕ → ℕ
low_bits x k = x % 2 ^ k

abbrev shl : ℕ → ℕ → ℕ
shl x k = u64 (x * 2 ^ k)

-- The constructor of `ProxyTrigger`
pub make_trigger : Request → Trigger
make_trigger r = record {
  fst = u64 (shl (low_bits r.src_offset bits_offset) bits_size + low_bits r.bytes bits_size);
  snd =
      let sem_type =
        u64
          (shl (low_bits r.semaphore_id bits_semaphore_id) bits_type + low_bits r.type bits_type) in
      let with_dst = u64 (shl sem_type bits_memory_id + low_bits r.dst_id bits_memory_id) in
      let with_src = u64 (shl with_dst bits_memory_id + low_bits r.src_id bits_memory_id) in
      u64 (shl with_src bits_offset + low_bits r.dst_offset bits_offset);
}

-- `ProxyTrigger::fields`: bit fields are laid out from the lowest bit up.
pub fields : Trigger → Request
fields t = record {
  bytes = t.fst % 2 ^ bits_size;
  src_offset = t.fst / 2 ^ bits_size % 2 ^ bits_offset;
  dst_offset = t.snd % 2 ^ bits_offset;
  src_id = t.snd / 2 ^ bits_offset % 2 ^ bits_memory_id;
  dst_id = t.snd / 2 ^ (bits_offset + bits_memory_id) % 2 ^ bits_memory_id;
  type = t.snd / 2 ^ (bits_offset + bits_memory_id + bits_memory_id) % 2 ^ bits_type;
  semaphore_id =
      t.snd
      / 2 ^ (bits_offset + bits_memory_id + bits_memory_id + bits_type)
      % 2 ^ bits_semaphore_id;
}

-- `trigger.snd ^= flipMask`, in `push` and again in the proxy's loop.
unfoldable pub flip : Trigger → Trigger
flip t = record t { snd = bit_xor t.snd (2 ^ 63) }
