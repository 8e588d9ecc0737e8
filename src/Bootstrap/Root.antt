-- ===== src/Bootstrap/Root.antt =====
-- src/core/bootstrap/bootstrap.cc: `bootstrapRoot`, which collects the addresses of the ranks and sends
-- to each rank that of the next. An address is a number; the memory that `memset` has cleared is
-- address 0. No abort is asked for.
pub mod Handles
mod Tests
use mscclpp.Base.{
  ℕ, zero, suc, ◌+◌, ◌%◌, Bool, true, false, not, List, [], ◌∷◌, Option, none, some, Result, ok,
  err, thrown, internal_error, out_of_range, throw_if, ◌>>=◌, ◌>>◌, ◌==◌, ltb, if◌then◌else◌,
  length, get_elem?, set,
}

-- `ExtInfo`
pub record ExtInfo : Type 0 where
  pub rank : ℕ
  pub n_ranks : ℕ
  pub ext_address_listen_root : ℕ
  pub ext_address_listen : ℕ

pub record Table : Type 0 where
  pub rank_addresses : List ℕ
  pub rank_addresses_root : List ℕ

abbrev pub at_or_fault : Option ℕ → Result ℕ
at_or_fault none = err out_of_range
at_or_fault (some a) = ok a

-- `getRemoteAddresses`, for what `netRecv` has received
unfoldable pub get_remote_addresses : ℕ → ExtInfo → Table → Result Table
get_remote_addresses n_ranks info t = do
  throw_if (not (n_ranks == info.n_ranks)) internal_error
  old ← at_or_fault (get_elem? t.rank_addresses_root info.rank)
  throw_if (not (old == 0)) internal_error
  ok record {
    rank_addresses = set t.rank_addresses info.rank info.ext_address_listen;
    rank_addresses_root = set t.rank_addresses_root info.rank info.ext_address_listen_root;
  }

-- The `do` loop of `bootstrapRoot` with `num_collected` done, on what the ranks send in the order of its
-- `accept`; none when it waits for another connection.
unfoldable pub collect : ℕ → ℕ → List ExtInfo → Table → Result (Option Table)
collect n_ranks num_collected [] t = ok none
collect n_ranks num_collected (info ∷ infos) t = do
  t' ← get_remote_addresses n_ranks info t
  let rest = collect n_ranks (num_collected + 1) infos t'
  if ltb (num_collected + 1) n_ranks then rest else ok (some t')

abbrev pub zeros : ℕ → List ℕ
zeros zero = []
zeros (suc n) = 0 ∷ zeros n

-- `sendHandleToPeer`: where it connects to, and the address that it sends
unfoldable pub send_handle_to_peer : ℕ → Table → ℕ → Result (ℕ × ℕ)
send_handle_to_peer n_ranks t peer = do
  to ← at_or_fault (get_elem? t.rank_addresses_root peer)
  next ← at_or_fault (get_elem? t.rank_addresses ((peer + 1) % n_ranks))
  ok (to, next)

-- The last loop of `bootstrapRoot`, with `k` peers left from `peer`
unfoldable pub send_handles : ℕ → Table → ℕ → ℕ → Result (List (ℕ × ℕ))
send_handles n_ranks t peer zero = ok []
send_handles n_ranks t peer (suc k) = do
  handle ← send_handle_to_peer n_ranks t peer
  handles ← send_handles n_ranks t (peer + 1) k
  ok (handle ∷ handles)

abbrev pub send_or_wait : ℕ → Option Table → Result (Option (List (ℕ × ℕ)))
send_or_wait n_ranks none = ok none
send_or_wait n_ranks (some t) = do handles ← send_handles n_ranks t 0 n_ranks; ok (some handles)

-- `bootstrapRoot`, for the connections that come; none when it waits for another.
unfoldable pub bootstrap_root : ℕ → List ExtInfo → Result (Option (List (ℕ × ℕ)))
bootstrap_root n_ranks infos = do
  t ←
      collect n_ranks 0 infos
        (record { rank_addresses = zeros n_ranks; rank_addresses_root = zeros n_ranks })
  send_or_wait n_ranks t
