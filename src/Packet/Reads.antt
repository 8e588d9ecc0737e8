-- ===== src/Packet/Reads.antt =====
-- include/mscclpp/packet_device.hpp: what a successful read of a packet returns.
use mscclpp.Base.{
  ℕ, ◌+◌, ◌*◌, ◌^◌, ◌≤◌, ◌<◌, ◌≡◌, refl, sym, ap, ap₂, subst, ◌∙◌, ◌≢◌, false, some, ==_self, arith,
}
use mscclpp.Packet.{
  Word, Ll16Packet, write_x, write_y, split_value, read_once, clear, Write, Link, init, store_x,
  store_y, load_x, load_y, Reach, start, stores_to_x, stores_to_y, loads_x, loads_y,
}

-- Where a word comes from: the memory was cleared, or one of the first `n` writes stored it.
data Stored (val : Write → ℕ) (writes : ℕ → Write) (n : ℕ) : Word → Type 0 where
  never : Stored val writes n (record { payload = 0; flag = 0 })
  by :
      (k : ℕ)
      → k < n
      → Stored val writes n (record { payload = val (writes k); flag = (writes k).flag })

Stored-le :
    (val : Write → ℕ) (writes : ℕ → Write) (n m : ℕ) (w : Word)
    → n ≤ m
    → Stored val writes n w
    → Stored val writes m w
Stored-le val writes n m w h never = never
Stored-le val writes n m w h (by k p) = by k (omega arith)

record Inv (writes : ℕ → Write) (l : Link) : Type 0 where
  x : Stored (λ w. w.val1) writes l.stores_x l.packet.raw_x
  y : Stored (λ w. w.val2) writes l.stores_y l.packet.raw_y
  loaded_x : (w : Word) → l.loaded_x ≡ some w → Stored (λ w. w.val1) writes l.stores_x w
  loaded_y : (w : Word) → l.loaded_y ≡ some w → Stored (λ w. w.val2) writes l.stores_y w

some-inj : {A : Type 0} (a b : A) → some a ≡ some b → a ≡ b
some-inj a b h = cc

Reach-Inv : (writes : ℕ → Write) (l : Link) → Reach writes l → Inv writes l
unfolding init store_x store_y load_x load_y write_x write_y clear
Reach-Inv writes l start = record {
  x = never;
  y = never;
  loaded_x = λ w h. absurd cc;
  loaded_y = λ w h. absurd cc;
}
Reach-Inv writes l (stores_to_x {l = m} r h) =
    let v = Reach-Inv writes m r in
    record {
      x = by m.stores_x (omega arith);
      y = v.y;
      loaded_x = λ w e.
          Stored-le (λ w. w.val1) writes m.stores_x (m.stores_x + 1) w (omega arith)
            (v.loaded_x w e);
      loaded_y = v.loaded_y;
    }
Reach-Inv writes l (stores_to_y {l = m} r h) =
    let v = Reach-Inv writes m r in
    record {
      x = v.x;
      y = by m.stores_y (omega arith);
      loaded_x = v.loaded_x;
      loaded_y = λ w e.
          Stored-le (λ w. w.val2) writes m.stores_y (m.stores_y + 1) w (omega arith)
            (v.loaded_y w e);
    }
Reach-Inv writes l (loads_x {l = m} r) =
    let v = Reach-Inv writes m r in
    record {
      x = v.x;
      y = v.y;
      loaded_x =
          λ w e. subst (Stored (λ w. w.val1) writes m.stores_x) (some-inj m.packet.raw_x w e) v.x;
      loaded_y = v.loaded_y;
    }
Reach-Inv writes l (loads_y {l = m} r) =
    let v = Reach-Inv writes m r in
    record {
      x = v.x;
      y = v.y;
      loaded_x = v.loaded_x;
      loaded_y =
          λ w e. subst (Stored (λ w. w.val2) writes m.stores_y) (some-inj m.packet.raw_y w e) v.y;
    }

-- A flag that is not 0 was stored by a write.
Stored-flag :
    (val : Write → ℕ) (writes : ℕ → Write) (n : ℕ) (w : Word)
    → Stored val writes n w
    → w.flag ≢ 0
    → (k : ℕ) × (k < n) × (w.flag ≡ (writes k).flag) × (w.payload ≡ val (writes k))
Stored-flag val writes n w never h = absurd (h refl)
Stored-flag val writes n w (by k p) h = (k, p, refl, refl)

read_once-false :
    (x y : Word) (flag : ℕ) → (read_once x y flag).0 ≡ false → (x.flag ≡ flag) × (y.flag ≡ flag)
unfolding read_once
read_once-false x y flag h = ground arith

-- However the stores of the writer and the loads of the reader interleave, a reader that `readOnce` lets
-- go on for a flag other than 0 returns both values of the one write with that flag, as long as no two
-- writes have the same flag: never a value of one write with a value of another.
pub read_is_whole :
    (writes : ℕ → Write) (l : Link) (x y : Word) (flag : ℕ)
    → ((i j : ℕ) → (writes i).flag ≡ (writes j).flag → i ≡ j)
    → Reach writes l
    → l.loaded_x ≡ some x
    → l.loaded_y ≡ some y
    → flag ≢ 0
    → (read_once x y flag).0 ≡ false
    → (k : ℕ) × ((writes k).flag ≡ flag)
      × ((read_once x y flag).1 ≡ ((writes k).val1, (writes k).val2))
unfolding read_once
read_is_whole writes l x y flag distinct r ex ey nz ok =
    let v = Reach-Inv writes l r in
    let (fx, fy) = read_once-false x y flag ok in
    let (i, _, ei, di) =
      Stored-flag (λ w. w.val1) writes l.stores_x x (v.loaded_x x ex) (λ z. nz (sym fx ∙ z)) in
    let (j, _, ej, dj) =
      Stored-flag (λ w. w.val2) writes l.stores_y y (v.loaded_y y ey) (λ z. nz (sym fy ∙ z)) in
    let same = distinct i j (sym ei ∙ fx ∙ sym fy ∙ ej) in
    (i, sym ei ∙ fx, ap₂ (λ a b. (a, b)) di (dj ∙ ap (λ k. (writes k).val2) (sym same)))

-- The word that the last of `n` stores left.
abbrev Latest : (Write → ℕ) → (ℕ → Write) → ℕ → Word → Type 0
Latest val writes n w =
    (k : ℕ) → n ≡ k + 1 → w ≡ record { payload = val (writes k); flag = (writes k).flag }

stored_last :
    (val : Write → ℕ) (writes : ℕ → Write) (n : ℕ)
    → Latest val writes (n + 1) (record { payload = val (writes n); flag = (writes n).flag })
stored_last val writes n k e =
    let same : n ≡ k = omega arith in
    ap (λ i. record { payload = val (writes i); flag = (writes i).flag }) same

latest :
    (writes : ℕ → Write) (l : Link)
    → Reach writes l
    → Latest (λ w. w.val1) writes l.stores_x l.packet.raw_x
      × Latest (λ w. w.val2) writes l.stores_y l.packet.raw_y
unfolding init store_x store_y load_x load_y write_x write_y clear
latest writes l start = (λ k e. absurd (omega arith), λ k e. absurd (omega arith))
latest writes l (stores_to_x {l = m} r h) =
    let (_, y) = latest writes m r in (stored_last (λ w. w.val1) writes m.stores_x, y)
latest writes l (stores_to_y {l = m} r h) =
    let (x, _) = latest writes m r in (x, stored_last (λ w. w.val2) writes m.stores_y)
latest writes l (loads_x {l = m} r) = latest writes m r
latest writes l (loads_y {l = m} r) = latest writes m r

-- Once write number `k` has stored both words, and until the next one stores, a read of the packet
-- for its flag succeeds and returns its two values.
pub read_after_write :
    (writes : ℕ → Write) (l : Link) (k : ℕ)
    → Reach writes l
    → l.stores_x ≡ k + 1
    → l.stores_y ≡ k + 1
    → read_once l.packet.raw_x l.packet.raw_y (writes k).flag
      ≡ (false, ((writes k).val1, (writes k).val2))
unfolding read_once
read_after_write writes l k r hx hy =
    let (x, y) = latest writes l r in rw (x k hx, y k hy, ==_self (writes k).flag) refl

-- A value of 64 bits comes back from the two values that `write` stores for it, whichever word is
-- stored first, and whatever the packet held.
pub write-split_value :
    (p : Ll16Packet) (val flag : ℕ)
    → val < 2 ^ 64
    → let (val1, val2) = split_value val in
      (write_y (write_x p val1 flag) val2 flag ≡ write_x (write_y p val2 flag) val1 flag)
      × (let q = write_y (write_x p val1 flag) val2 flag in
          read_once q.raw_x q.raw_y flag ≡ (false, (val1, val2)))
      × (val1 + val2 * 2 ^ 32 ≡ val)
unfolding read_once write_x write_y split_value
write-split_value p val flag h = (refl, rw (==_self flag) refl, omega arith)
