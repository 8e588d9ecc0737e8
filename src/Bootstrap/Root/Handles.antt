-- ===== src/Bootstrap/Root/Handles.antt =====
-- src/core/bootstrap/bootstrap.cc: what the root sends when the ranks have checked in.
use native.Mathlib.Nat.{mod-lt}
use mscclpp.Base.{
  true, false, Option, Result, ltb, lt→ltb, le→ltb_false, if◌then◌else◌, ℕ, zero, suc, ◌+◌, ◌%◌,
  ◌<◌, ◌≤◌, ◌≡◌, ◌≢◌, refl, sym, ap, ◌∙◌, subst, List, [], ◌∷◌, some, some-inj, ok, ==_self, length,
  get_elem?, set, length-set, get_elem?-lt, get_elem?-set_self, get_elem?-set_ne, All,
  All-get_elem?, arith,
}
use mscclpp.Bootstrap.Root.{
  ExtInfo, Table, get_remote_addresses, collect, zeros, send_handle_to_peer, send_handles,
  bootstrap_root,
}

-- No connection is from rank `r`.
abbrev pub IsAbsent : ℕ → List ExtInfo → Type 0
IsAbsent r infos = All (λ i. r ≢ i.rank) infos

-- Every connection is from another rank of the `n`, which counts `n` ranks too.
abbrev pub IsValid : ℕ → List ExtInfo → Type 0
IsValid n [] = Unit
IsValid n (i ∷ infos) =
    (n ≡ i.n_ranks)
    × (i.rank < n)
    × (i.ext_address_listen_root ≢ 0)
    × IsAbsent i.rank infos
    × IsValid n infos

record IsTable (n : ℕ) (t : Table) : Type 0 where
  addresses : length t.rank_addresses ≡ n
  roots : length t.rank_addresses_root ≡ n

abbrev Holds : Table → ExtInfo → Type 0
Holds t i =
    (get_elem? t.rank_addresses_root i.rank ≡ some i.ext_address_listen_root)
    × (get_elem? t.rank_addresses i.rank ≡ some i.ext_address_listen)

abbrev place_info : ExtInfo → Table → Table
place_info i t = record {
  rank_addresses = set t.rank_addresses i.rank i.ext_address_listen;
  rank_addresses_root = set t.rank_addresses_root i.rank i.ext_address_listen_root;
}

place_info-IsTable : (n : ℕ) (i : ExtInfo) (t : Table) → IsTable n t → IsTable n (place_info i t)
place_info-IsTable n i t h = record {
  addresses = length-set t.rank_addresses i.rank i.ext_address_listen ∙ h.addresses;
  roots = length-set t.rank_addresses_root i.rank i.ext_address_listen_root ∙ h.roots;
}

get_remote_addresses-place_info :
    (n : ℕ) (i : ExtInfo) (t : Table)
    → n ≡ i.n_ranks
    → get_elem? t.rank_addresses_root i.rank ≡ some 0
    → get_remote_addresses n i t ≡ ok (place_info i t)
unfolding get_remote_addresses
get_remote_addresses-place_info n i t e h = rw (sym e, ==_self n, h) refl

abbrev IsFresh : Table → List ExtInfo → Type 0
IsFresh t infos = All (λ i. get_elem? t.rank_addresses_root i.rank ≡ some 0) infos

place_info-IsFresh :
    (i : ExtInfo) (t : Table) (infos : List ExtInfo)
    → IsAbsent i.rank infos
    → IsFresh t infos
    → IsFresh (place_info i t) infos
place_info-IsFresh i t [] a f = tt
place_info-IsFresh i t (j ∷ infos) (ne, a) (h, f) = (
  get_elem?-set_ne t.rank_addresses_root i.rank j.rank i.ext_address_listen_root ne ∙ h,
  place_info-IsFresh i t infos a f,
)

-- The loop with `num` connections done, at its test
abbrev after : ℕ → ℕ → List ExtInfo → Table → Result (Option Table)
after n num infos t = if ltb num n then collect n num infos t else ok (some t)

-- The loop succeeds; the table then has the addresses of all, and those of other ranks as before.
record Collected (n : ℕ) (infos : List ExtInfo) (t u : Table) : Type 0 where
  outcome : (num : ℕ) → num + length infos ≡ n → after n num infos t ≡ ok (some u)
  table : IsTable n u
  holds : All (Holds u) infos
  others :
      (r : ℕ)
      → IsAbsent r infos
      → (get_elem? u.rank_addresses_root r ≡ get_elem? t.rank_addresses_root r)
        × (get_elem? u.rank_addresses r ≡ get_elem? t.rank_addresses r)

collect-Collected :
    (n : ℕ) (infos : List ExtInfo) (t : Table)
    → IsTable n t
    → IsValid n infos
    → IsFresh t infos
    → (u : Table) × Collected n infos t u
unfolding collect
collect-Collected n [] t h v f = (
  t,
  record {
    outcome =
        λ num e. let done : ltb num n ≡ false = le→ltb_false num n (omega arith) in rw done refl;
    table = h;
    holds = tt;
    others = λ r a. (refl, refl);
  },
)
collect-Collected n (i ∷ infos) t h (en, lt, nz, absent, v) (free, f) =
    let (u, c) =
      collect-Collected n infos (place_info i t) (place_info-IsTable n i t h) v
        (place_info-IsFresh i t infos absent f) in
    let (same_root, same) = c.others i.rank absent in
    let in_roots : i.rank < length t.rank_addresses_root = rw (h.roots) lt in
    let in_addresses : i.rank < length t.rank_addresses = rw (h.addresses) lt in
    (
      u,
      record {
        outcome = λ num e.
            rw (lt→ltb num n (omega arith), get_remote_addresses-place_info n i t en free)
              (c.outcome (num + 1) (omega arith));
        table = c.table;
        holds = (
          (
            same_root
                ∙ get_elem?-set_self t.rank_addresses_root i.rank i.ext_address_listen_root
                    in_roots,
            same ∙ get_elem?-set_self t.rank_addresses i.rank i.ext_address_listen in_addresses,
          ),
          c.holds,
        );
        others = λ r (ne, a).
            let (root_r, r_same) = c.others r a in
            (
              root_r
                  ∙ get_elem?-set_ne t.rank_addresses_root i.rank r i.ext_address_listen_root
                      (λ e. ne (sym e)),
              r_same
                  ∙ get_elem?-set_ne t.rank_addresses i.rank r i.ext_address_listen
                      (λ e. ne (sym e)),
            );
      },
    )

get_elem?-zeros : (n r : ℕ) → r < n → get_elem? (zeros n) r ≡ some 0
get_elem?-zeros zero r h = elim h [ ]
get_elem?-zeros (suc n) zero h = refl
get_elem?-zeros (suc n) (suc r) h = get_elem?-zeros n r (omega arith)

length-zeros : (n : ℕ) → length (zeros n) ≡ n
length-zeros zero = refl
length-zeros (suc n) = ap suc (length-zeros n)

abbrev empty_table : ℕ → Table
empty_table n = record { rank_addresses = zeros n; rank_addresses_root = zeros n }

empty_table-IsFresh :
    (n : ℕ) (infos : List ExtInfo) → IsValid n infos → IsFresh (empty_table n) infos
empty_table-IsFresh n [] v = tt
empty_table-IsFresh n (i ∷ infos) (en, lt, nz, absent, v) =
    (get_elem?-zeros n i.rank lt, empty_table-IsFresh n infos v)

send_handle-ok :
    (n peer : ℕ) (t : Table)
    → IsTable n t
    → peer < n
    → (handle : ℕ × ℕ) × (send_handle_to_peer n t peer ≡ ok handle)
unfolding send_handle_to_peer
send_handle-ok n peer t h lt =
    let (to, e) = get_elem?-lt t.rank_addresses_root peer (rw (h.roots) lt) in
    let (next, e') =
      get_elem?-lt t.rank_addresses ((peer + 1) % n)
        (rw (h.addresses) (mod-lt (peer + 1) (omega arith))) in
    ((to, next), rw (e, e') refl)

-- Each peer is sent its handle.
send_handles-ok :
    (n : ℕ) (t : Table) (peer k : ℕ)
    → IsTable n t
    → peer + k ≤ n
    → (handles : List (ℕ × ℕ)) × (send_handles n t peer k ≡ ok handles)
      × ((d : ℕ)
          → d < k
          → (handle : ℕ × ℕ) → send_handle_to_peer n t (peer + d) ≡ ok handle
          → get_elem? handles d ≡ some handle)
unfolding send_handles
send_handles-ok n t peer zero h le = ([], refl, λ d lt. elim lt [ ])
send_handles-ok n t peer (suc k) h le =
    let (first, e) = send_handle-ok n peer t h (omega arith) in
    let (rest, e', each) = send_handles-ok n t (peer + 1) k h (omega arith) in
    (first ∷ rest, rw (e, e') refl, go first rest e each)
  where
    go :
        (first : ℕ × ℕ) (rest : List (ℕ × ℕ))
        → send_handle_to_peer n t peer ≡ ok first
        → ((d : ℕ)
            → d < k
            → (handle : ℕ × ℕ) → send_handle_to_peer n t (peer + 1 + d) ≡ ok handle
            → get_elem? rest d ≡ some handle)
        → (d : ℕ) → d < suc k
        → (handle : ℕ × ℕ) → send_handle_to_peer n t (peer + d) ≡ ok handle
        → get_elem? (first ∷ rest) d ≡ some handle
    go first rest e each zero lt handle h =
        let same : send_handle_to_peer n t peer ≡ ok handle =
          ap (send_handle_to_peer n t) (omega arith) ∙ h in
        cc
    go first rest e each (suc d) lt handle h =
        each d (omega arith) handle (ap (send_handle_to_peer n t) (omega arith) ∙ h)

IsValid-lt :
    (n : ℕ) (infos : List ExtInfo) (a : ℕ) (i : ExtInfo)
    → IsValid n infos
    → get_elem? infos a ≡ some i
    → i.rank < n
IsValid-lt n [] a i v e = absurd cc
IsValid-lt n (x ∷ infos) zero i (en, lt, nz, absent, v) e = subst (λ i. i.rank < n) (some-inj e) lt
IsValid-lt n (x ∷ infos) (suc a) i (en, lt, nz, absent, v) e = IsValid-lt n infos a i v e

-- When as many connections come as there are ranks, and every one is from another rank, below the
-- number of ranks, which it counts too, and has a root address, the root ends without an error,
-- whatever the order, and a rank `i` is sent, at the address where it waits for the root, the address of
-- rank `j`, the next one in the ring.
pub bootstrap_root_lem :
    (n : ℕ) (infos : List ExtInfo) (a b : ℕ) (i j : ExtInfo)
    → IsValid n infos
    → length infos ≡ n
    → get_elem? infos a ≡ some i
    → get_elem? infos b ≡ some j
    → j.rank ≡ (i.rank + 1) % n
    → (handles : List (ℕ × ℕ)) × (bootstrap_root n infos ≡ ok (some handles))
      × (get_elem? handles i.rank ≡ some (i.ext_address_listen_root, j.ext_address_listen))
unfolding bootstrap_root send_handle_to_peer
bootstrap_root_lem n infos a b i j v all ha hb next =
    let table : IsTable n (empty_table n) = record {
      addresses = length-zeros n;
      roots = length-zeros n;
    } in
    let (u, c) =
      collect-Collected n infos (empty_table n) table v (empty_table-IsFresh n infos v) in
    let (handles, sent, each) = send_handles-ok n u 0 n c.table (omega arith) in
    let (root_i, _) = All-get_elem? (Holds u) infos a i c.holds ha in
    let (_, listen_j) = All-get_elem? (Holds u) infos b j c.holds hb in
    let listen : get_elem? u.rank_addresses ((i.rank + 1) % n) ≡ some j.ext_address_listen =
      ap (get_elem? u.rank_addresses) (sym next) ∙ listen_j in
    let started : ltb 0 n ≡ true = lt→ltb 0 n (omega (arith, IsValid-lt n infos a i v ha)) in
    let outcome = rw started at (c.outcome 0 (omega arith)) in
    let zero_add : 0 + i.rank ≡ i.rank = omega arith in
    let handle : send_handle_to_peer n u (0 + i.rank)
        ≡ ok (i.ext_address_listen_root, j.ext_address_listen) =
      rw (zero_add, root_i, listen) refl in
    (
      handles,
      rw (outcome, sent) refl,
      each i.rank (IsValid-lt n infos a i v ha) (i.ext_address_listen_root, j.ext_address_listen)
          handle,
    )
