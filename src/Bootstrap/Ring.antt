-- ===== src/Bootstrap/Ring.antt =====
-- src/core/bootstrap/bootstrap.cc: `allGather`, `barrier` and `broadcast` over the ring. Each rank has
-- its buffer as slots and the sends and receives that its loop has left; the socket from a rank
-- to the next one keeps messages in order. A send waits until the socket has taken the whole message.
mod Slots
mod Rounds
pub mod Gather
pub mod Progress
mod Relay
mod Broadcast
pub mod Delivered
mod Tests
use mscclpp.Base.{
  ◌<◌, ◌≡◌, ℕ, zero, suc, ◌+◌, ◌-◌, ◌%◌, Option, none, some, Bool, List, [], ◌∷◌, ◌++◌, ◌==◌, ◌&&◌,
  ◌||◌, true, false, length, ltb, if◌then◌else◌, update,
}

pub data Action : Type 0 where
  send : (slot : ℕ) → Action  -- `netSend` to `ringSendSocket_`
  recv : (slot : ℕ) → Action  -- `netRecv` from `ringRecvSocket_`

-- `rSlice` and `sSlice` of round `i`
abbrev pub recv_slice : ℕ → ℕ → ℕ → ℕ
recv_slice n_ranks rank i = (rank + n_ranks - i - 1) % n_ranks

abbrev pub send_slice : ℕ → ℕ → ℕ → ℕ
send_slice n_ranks rank i = (rank + n_ranks - i) % n_ranks

-- The loop of `allGather`, from round `i` with `k` rounds left
unfoldable pub gather_rounds : ℕ → ℕ → ℕ → ℕ → List Action
gather_rounds n_ranks rank i zero = []
gather_rounds n_ranks rank i (suc k) =
    send (send_slice n_ranks rank i)
    ∷ recv (recv_slice n_ranks rank i)
    ∷ gather_rounds n_ranks rank (i + 1) k

-- `allGather`
unfoldable pub all_gather : ℕ → ℕ → List Action
all_gather n_ranks rank = gather_rounds n_ranks rank 0 (n_ranks - 1)

-- `receiveStep`
abbrev pub receive_step : ℕ → ℕ → ℕ → ℕ
receive_step n_ranks rank root = (rank + n_ranks - root - 1) % n_ranks

-- The body of the loop of `broadcast` for one value of `step`
abbrev pub broadcast_step : ℕ → ℕ → ℕ → ℕ → List Action
broadcast_step n_ranks rank root step =
    if rank == root
    then (if step == 0 then send 0 ∷ [] else [])
    else if step == receive_step n_ranks rank root
    then recv 0 ∷ (if ltb (step + 2) n_ranks then send 0 ∷ [] else [])
    else []

-- Its loop, from `step` with `k` steps left
unfoldable pub broadcast_steps : ℕ → ℕ → ℕ → ℕ → ℕ → List Action
broadcast_steps n_ranks rank root step zero = []
broadcast_steps n_ranks rank root step (suc k) =
    broadcast_step n_ranks rank root step ++ broadcast_steps n_ranks rank root (step + 1) k

-- `broadcast`
unfoldable pub broadcast : ℕ → ℕ → ℕ → List Action
broadcast n_ranks root rank =
    if n_ranks == 1 then [] else broadcast_steps n_ranks rank root 0 (n_ranks - 1)

-- The rank that `bootstrapRoot` has a rank connect to, `next` of `sendHandleToPeer`
abbrev pub next_rank : ℕ → ℕ → ℕ
next_rank n_ranks r = (r + 1) % n_ranks

-- `wire r` holds what was sent to rank `r` and is not received.
pub record Ring (A : Type 0) : Type 0 where
  pub todo : ℕ → List Action
  pub buffer : ℕ → ℕ → A
  pub wire : ℕ → List A

abbrev pub is_receiving : List Action → Bool
is_receiving (recv slot ∷ rest) = true
is_receiving _ = false

module _ {A : Type 0} where
  abbrev pub do_send : ℕ → Ring A → ℕ → ℕ → List Action → Ring A
  do_send n_ranks s r slot rest = record s {
    todo = update s.todo r rest;
    wire =
        update s.wire (next_rank n_ranks r)
          (s.wire (next_rank n_ranks r) ++ (s.buffer r slot ∷ []));
  }

  abbrev pub do_recv : Ring A → ℕ → ℕ → List Action → List A → Option (Ring A)
  do_recv s r slot rest [] = none
  do_recv s r slot rest (v ∷ vs) = some record s {
    todo = update s.todo r rest;
    buffer = update s.buffer r (update (s.buffer r) slot v);
    wire = update s.wire r vs;
  }

  -- Whether `Socket::send` to rank `q` comes to its end: the socket, which has room for `capacity`
  -- messages, can take one more, or the rank is in `Socket::recv` for this very message.
  abbrev pub can_send : ℕ → Ring A → ℕ → Bool
  can_send capacity s q =
      ltb (length (s.wire q)) capacity || ((length (s.wire q) == 0) && is_receiving (s.todo q))

  abbrev pub act : ℕ → ℕ → Ring A → ℕ → List Action → Option (Ring A)
  act n_ranks capacity s r [] = none
  act n_ranks capacity s r (send slot ∷ rest) =
      if can_send capacity s (next_rank n_ranks r)
      then some (do_send n_ranks s r slot rest)
      else none
  act n_ranks capacity s r (recv slot ∷ rest) = do_recv s r slot rest (s.wire r)

  -- The next action of rank `r`; none when it has returned, or waits for a message or for room.
  unfoldable pub step_rank : ℕ → ℕ → Ring A → ℕ → Option (Ring A)
  step_rank n_ranks capacity s r = act n_ranks capacity s r (s.todo r)

  -- All ranks have called; `contents` are their buffers.
  unfoldable pub begin : (ℕ → List Action) → (ℕ → ℕ → A) → Ring A
  begin call contents = record { todo = call; buffer = contents; wire = λ r. [] }

  -- What the ranks can do in `k` actions, in any order.
  pub data Runs (n_ranks capacity : ℕ) (s : Ring A) : ℕ → Ring A → Type 0 where
    start : Runs n_ranks capacity s 0 s
    later :
        {k : ℕ} {t u : Ring A} (r : ℕ)
        → r < n_ranks
        → Runs n_ranks capacity s k t
        → step_rank n_ranks capacity t r ≡ some u
        → Runs n_ranks capacity s (suc k) u
