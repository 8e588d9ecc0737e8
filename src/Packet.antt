-- ===== src/Packet.antt =====
-- The LL packets of include/mscclpp/packet_device.hpp. Memory is read and written 8 bytes at a time, and
-- a packet of 16 bytes is two such words that a writer and a reader reach in any order.
pub mod Reads
mod Tests
use mscclpp.Base.{ℕ, ◌+◌, ◌/◌, ◌^◌, ◌≤◌, ◌≡◌, Bool, not, ◌||◌, Option, none, some, ◌==◌, u32}

-- 8 bytes: 4 of data and 4 of flag.
pub record Word : Type 0 where
  pub payload : ℕ
  pub flag : ℕ

-- `LL16Packet`: `raw_.x` and `raw_.y`
pub record Ll16Packet : Type 0 where
  pub raw_x : Word
  pub raw_y : Word

-- `write(val1, val2, flag)`, as its two stores
pub write_x : Ll16Packet → ℕ → ℕ → Ll16Packet
write_x p val1 flag = record p { raw_x = record { payload = val1; flag = flag } }

pub write_y : Ll16Packet → ℕ → ℕ → Ll16Packet
write_y p val2 flag = record p { raw_y = record { payload = val2; flag = flag } }

-- `write(uint64_t val, flag)`: the two values of the other `write`
pub split_value : ℕ → ℕ × ℕ
split_value val = (u32 val, u32 (val / 2 ^ 32))

-- `readOnce`, from the two words that it loads
pub read_once : Word → Word → ℕ → Bool × (ℕ × ℕ)
read_once x y flag = (not (x.flag == flag) || not (y.flag == flag), (x.payload, y.payload))

-- `clear`
pub clear : Ll16Packet
clear = record {
  raw_x = record { payload = 0; flag = 0 };
  raw_y = record { payload = 0; flag = 0 };
}

-- `LL8Packet`
pub ll8_write : ℕ → ℕ → Word
ll8_write val flag = record { payload = val; flag = flag }

pub ll8_read_once : Word → ℕ → Bool × ℕ
ll8_read_once w flag = (not (w.flag == flag), w.payload)

-- The arguments of one `write`
pub record Write : Type 0 where
  pub val1 : ℕ
  pub val2 : ℕ
  pub flag : ℕ

-- A packet that one writer writes again and again, and one reader polls: how many stores each word
-- got, and the words that the reader has loaded.
pub record Link : Type 0 where
  pub packet : Ll16Packet
  pub stores_x : ℕ
  pub stores_y : ℕ
  pub loaded_x : Option Word
  pub loaded_y : Option Word

pub init : Link
init = record { packet = clear; stores_x = 0; stores_y = 0; loaded_x = none; loaded_y = none }

pub store_x : (ℕ → Write) → Link → Link
store_x writes l =
    let w = writes l.stores_x in
    record l { packet = write_x l.packet w.val1 w.flag; stores_x = l.stores_x + 1 }

pub store_y : (ℕ → Write) → Link → Link
store_y writes l =
    let w = writes l.stores_y in
    record l { packet = write_y l.packet w.val2 w.flag; stores_y = l.stores_y + 1 }

pub load_x : Link → Link
load_x l = record l { loaded_x = some l.packet.raw_x }

pub load_y : Link → Link
load_y l = record l { loaded_y = some l.packet.raw_y }

-- Write number `k` is over when each word has got `k + 1` stores; the next starts only then.
pub data Reach (writes : ℕ → Write) : Link → Type 0 where
  start : Reach writes init
  stores_to_x :
      {l : Link} → Reach writes l → l.stores_x ≤ l.stores_y → Reach writes (store_x writes l)
  stores_to_y :
      {l : Link} → Reach writes l → l.stores_y ≤ l.stores_x → Reach writes (store_y writes l)
  loads_x : {l : Link} → Reach writes l → Reach writes (load_x l)
  loads_y : {l : Link} → Reach writes l → Reach writes (load_y l)
