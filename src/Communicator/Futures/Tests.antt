-- ===== src/Communicator/Futures/Tests.antt =====
-- src/core/communicator.cc: futures at concrete inputs.
use mscclpp.Base.{
  Bool, ◌==◌, ℕ, ◌+◌, ◌<◌, ◌≤◌, ◌≡◌, refl, ◌⊎◌, List, [], ◌∷◌, none, some, length, get_elem?, arith,
}
use mscclpp.Communicator.Futures.{
  Futures, make_future, get_last_recv_item, wait, Reach, start, makes, arrives,
}
use mscclpp.Communicator.Futures.Order.{recv_in_order}

abbrev messages : List ℕ
messages = 7 ∷ 8 ∷ []

-- `func` throws on the second message.
abbrev throws : ℕ → Bool
throws m = m == 8

-- Two futures are made, and two messages come.
two_made : (s : Futures ℕ) × Reach throws s messages × (s.made ≡ 2)
unfolding make_future get_last_recv_item
two_made = (_, arrives 8 (arrives 7 (makes (makes start))), refl)

two_made_lt : 1 < two_made.0.made
two_made_lt = let e = two_made.2 in omega arith

-- The second is waited for first, and has the second message.
recv_in_order_example :
    (1 < length messages)
      × ((t : Futures ℕ) × (wait throws (1 + 1) 1 two_made.0 ≡ some t)
          × ((t.items 1).value ≡ get_elem? messages 1))
    ⊎ (length messages ≤ 1) × (wait throws (1 + 1) 1 two_made.0 ≡ none)
recv_in_order_example = recv_in_order throws two_made.0 messages 1 two_made.1 two_made_lt
