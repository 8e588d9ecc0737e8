-- ===== src/Packet/Tests.antt =====
-- A packet written twice; the reader loads one word before and one after the second write.
use mscclpp.Base.{ℕ, ◌+◌, ◌≡◌, refl, false, arith}
use mscclpp.Packet.{
  write_x, write_y, read_once, Write, Link, init, store_x, store_y, load_x, load_y, Reach, start,
  stores_to_x, stores_to_y, loads_x, loads_y,
}
use mscclpp.Packet.Reads.{read_is_whole, read_after_write}

abbrev writes : ℕ → Write
writes k = record { val1 = 10 + k; val2 = 20 + k; flag = k + 1 }

abbrev written : Link
written = store_x writes (store_y writes init)

written-Reach : Reach writes written
unfolding init store_y
written-Reach = stores_to_x (stores_to_y start (omega arith)) (omega arith)

abbrev read : Link
read = load_y (load_x written)

distinct : (i j : ℕ) → (writes i).flag ≡ (writes j).flag → i ≡ j
distinct i j h = omega arith

read_is_whole_example :
    (k : ℕ) × ((writes k).flag ≡ 1)
    × ((read_once (record { payload = 10; flag = 1 }) (record { payload = 20; flag = 1 }) 1).1
        ≡ ((writes k).val1, (writes k).val2))
unfolding init store_x store_y load_x load_y write_x write_y read_once
read_is_whole_example =
    read_is_whole writes read (record { payload = 10; flag = 1 })
      (record { payload = 20; flag = 1 }) 1 distinct (loads_y (loads_x written-Reach)) refl refl
      (λ e. omega arith) refl

read_after_write_example : read_once written.packet.raw_x written.packet.raw_y 1 ≡ (false, (10, 20))
unfolding init store_x store_y
read_after_write_example = read_after_write writes written 0 written-Reach refl refl
