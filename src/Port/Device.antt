-- ===== src/Port/Device.antt =====
-- include/mscclpp/port_channel_device.hpp: what the operations of a port channel push to the FIFO, and
-- the wait for a flush.
use mscclpp.Base.{ℕ, bit_or, Bool, leb}
use mscclpp.Trigger.{Request, trigger_data, trigger_flag, trigger_sync}

-- The ids that a channel is bound to.
pub record Channel : Type 0 where
  pub semaphore_id : ℕ
  pub dst : ℕ
  pub src : ℕ

-- `fifo_.push({type, dstId, dstOffset, srcId, srcOffset, size, semaphoreId_})`
abbrev pub data_request : Channel → ℕ → ℕ → ℕ → ℕ → Request
data_request ch type dst_offset src_offset size = record {
  type = type;
  dst_id = ch.dst;
  dst_offset = dst_offset;
  src_id = ch.src;
  src_offset = src_offset;
  bytes = size;
  semaphore_id = ch.semaphore_id;
}

-- The trigger of `signal` and `flush`, which moves no data.
abbrev pub bare_request : Channel → ℕ → Request
bare_request ch type = record {
  type = type;
  dst_id = 0;
  dst_offset = 0;
  src_id = 0;
  src_offset = 0;
  bytes = 1;
  semaphore_id = ch.semaphore_id;
}

unfoldable pub put : Channel → ℕ → ℕ → ℕ → Request
put ch = data_request ch trigger_data

unfoldable pub signal : Channel → Request
signal ch = bare_request ch trigger_flag

unfoldable pub put_with_signal : Channel → ℕ → ℕ → ℕ → Request
put_with_signal ch = data_request ch (bit_or trigger_data trigger_flag)

unfoldable pub put_with_signal_and_flush : Channel → ℕ → ℕ → ℕ → Request
put_with_signal_and_flush ch =
    data_request ch (bit_or (bit_or trigger_data trigger_flag) trigger_sync)

unfoldable pub flush : Channel → Request
flush ch = bare_request ch trigger_sync

-- Whether the loop of `waitFlush` goes on.
unfoldable pub wait_flush : ℕ → ℕ → Bool
wait_flush flush_done_pos fifo_pos = leb flush_done_pos fifo_pos
