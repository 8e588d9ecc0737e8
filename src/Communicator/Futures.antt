-- ===== src/Communicator/Futures.antt =====
-- src/core/communicator.cc: the futures of `recvMemory`, `connect` and `buildSemaphore`, which
-- `makeOrderedRecvFuture` makes, for one pair of a remote rank and a tag. A future is known by how many
-- were made before it, and runs when it is waited for; `M` is what is received. The deserialisation of a
-- message may throw; its future is then ready with the exception, and an error of the socket is not
-- modelled.
mod Invariant
mod Waiting
pub mod Order
mod Tests
use mscclpp.Base.{
  ℕ, zero, suc, ◌+◌, ◌<◌, ◌≡◌, Bool, true, false, List, [], ◌∷◌, ◌++◌, Option, none, some, ◌==◌,
  if◌then◌else◌, update,
}

-- A future: the item that it waits for first, `lastRecvItem`, and when it is ready the message of which
-- it has the value or the exception
pub record Item (M : Type 0) : Type 0 where
  pub last_recv_item : Option ℕ
  pub value : Option M

-- The futures, the entry of `lastRecvItems_`, and the messages that `Bootstrap::recv` has not taken
pub record Futures (M : Type 0) : Type 0 where
  pub items : ℕ → Item M
  pub made : ℕ
  pub last : Option ℕ
  pub inbox : List M

abbrev pub clear_if : Option ℕ → ℕ → Option ℕ
clear_if none i = none
clear_if (some j) i = if j == i then none else some j

module _ {M : Type 0} where
  abbrev pub is_some : Option M → Bool
  is_some none = false
  is_some (some m) = true

  -- `BaseRecvItem::isReady`
  abbrev pub is_ready : Futures M → ℕ → Bool
  is_ready s i = is_some (s.items i).value

  abbrev pub last_unready : Futures M → Option ℕ → Option ℕ
  last_unready s none = none
  last_unready s (some i) = if is_ready s i then none else some i

  -- `getLastRecvItem`: an item that is ready is removed.
  unfoldable pub get_last_recv_item : Futures M → Option ℕ × Futures M
  get_last_recv_item s = (last_unready s s.last, record s { last = last_unready s s.last })

  -- `makeOrderedRecvFuture`, with `setLastRecvItem`
  unfoldable pub make_future : Futures M → Futures M
  unfolding get_last_recv_item
  make_future s =
      let (last, s') = get_last_recv_item s in
      record s' {
        items = update s'.items s'.made (record { last_recv_item = last; value = none });
        made = s'.made + 1;
        last = some s'.made;
      }

  -- `clearLastRecvItemIfMatches`
  abbrev pub clear_last_recv_item : ℕ → Futures M → Futures M
  clear_last_recv_item i s = record s { last = clear_if s.last i }

  -- `cleanup`, which is not reached when `func` throws
  abbrev pub cleanup_unless : Bool → ℕ → Futures M → Futures M
  cleanup_unless true i s = s
  cleanup_unless false i s = clear_last_recv_item i s

  -- `if (lastRecvItem) lastRecvItem->wait();`
  abbrev pub wait_last : (ℕ → Option (Futures M)) → Futures M → Option ℕ → Option (Futures M)
  wait_last earlier s none = some s
  wait_last earlier s (some j) = earlier j

-- `throws` tells whether `func` throws on a message.
module _ {M : Type 0} (throws : M → Bool) where
  -- The end of a deferred function, `func` and `cleanup`; none when no message has come.
  abbrev pub func_and_cleanup : ℕ → Futures M → List M → Option (Futures M)
  func_and_cleanup i s [] = none
  func_and_cleanup i s (m ∷ ms) = some (
      cleanup_unless (throws m) i record s {
        items =
            update s.items i
              (record { last_recv_item = (s.items i).last_recv_item; value = some m });
        inbox = ms;
      })

  abbrev pub run_after : ℕ → Option (Futures M) → Option (Futures M)
  run_after i none = none
  run_after i (some s) = func_and_cleanup i s s.inbox

  -- A call of `wait`: a future that is not ready runs its function, which first waits for the last
  -- item, if it has one. No result stands for a call that does not return yet; the fuel bounds the
  -- depth of the calls.
  unfoldable pub wait : ℕ → ℕ → Futures M → Option (Futures M)
  wait zero i s = none
  wait (suc fuel) i s =
      if is_ready s i
      then some s
      else run_after i (wait_last (λ j. wait fuel j s) s (s.items i).last_recv_item)

  -- What can happen; `arrived` are the messages that have come.
  pub data Reach : Futures M → List M → Type 0 where
    start :
        Reach
          (record {
            items = λ i. record { last_recv_item = none; value = none };
            made = 0;
            last = none;
            inbox = [];
          })
          []
    makes : {s : Futures M} {arrived : List M} → Reach s arrived → Reach (make_future s) arrived
    arrives :
        {s : Futures M} {arrived : List M} (m : M)
        → Reach s arrived
        → Reach (record s { inbox = s.inbox ++ (m ∷ []) }) (arrived ++ (m ∷ []))
    waits :
        {s t : Futures M} {arrived : List M} (i : ℕ)
        → i < s.made
        → Reach s arrived
        → wait (i + 1) i s ≡ some t
        → Reach t arrived
