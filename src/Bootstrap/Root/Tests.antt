-- ===== src/Bootstrap/Root/Tests.antt =====
-- src/core/bootstrap/bootstrap.cc: `bootstrapRoot` at concrete inputs.
use mscclpp.Base.{
  ℕ, ◌+◌, ◌≡◌, refl, List, [], ◌∷◌, none, some, ok, err, thrown, internal_error, get_elem?, arith,
}
use mscclpp.Bootstrap.Root.{
  ExtInfo, bootstrap_root, collect, get_remote_addresses, send_handles, send_handle_to_peer,
}
use mscclpp.Bootstrap.Root.Handles.{bootstrap_root_lem}

abbrev info : ℕ → ExtInfo
info r = record {
  rank = r;
  n_ranks = 2;
  ext_address_listen_root = 100 + r;
  ext_address_listen = 200 + r;
}

-- Rank 1 checks in first.
abbrev infos : List ExtInfo
infos = info 1 ∷ info 0 ∷ []

bootstrap_root_test : bootstrap_root 2 infos ≡ ok (some ((100, 201) ∷ (101, 200) ∷ []))
unfolding bootstrap_root collect get_remote_addresses send_handles send_handle_to_peer
bootstrap_root_test = refl

-- The root waits for the second rank.
bootstrap_root_waits : bootstrap_root 2 (info 1 ∷ []) ≡ ok none
unfolding bootstrap_root collect get_remote_addresses
bootstrap_root_waits = refl

-- A rank that checks in twice is an error.
bootstrap_root_twice : bootstrap_root 2 (info 1 ∷ info 1 ∷ []) ≡ err (thrown internal_error)
unfolding bootstrap_root collect get_remote_addresses
bootstrap_root_twice = refl

bootstrap_root_lem_example :
    (handles : List (ℕ × ℕ)) × (bootstrap_root 2 infos ≡ ok (some handles))
    × (get_elem? handles 1 ≡ some (101, 200))
bootstrap_root_lem_example =
    bootstrap_root_lem 2 infos 0 1 (info 1) (info 0)
      (
        refl,
        omega arith,
        (λ e. omega arith),
        ((λ e. omega arith), tt),
        (refl, omega arith, (λ e. omega arith), tt, tt),
      )
      refl refl refl refl
