-- ===== src/Communicator/Local/Queue.antt =====
-- src/core/communicator.cc: memories sent to the rank itself come in order when they are sent first,
-- and one may come twice when a receive is first.
use mathlib.Core.List.{append-nil, append_assoc}
use mscclpp.Base.{
  ℕ, zero, suc, ◌+◌, ◌<◌, ◌≡◌, ◌≢◌, refl, sym, ap, ◌∙◌, List, [], ◌∷◌, ◌++◌, Option, none, some,
  length, map, update, update_self, update_ne, arith,
}
use mscclpp.Communicator.Local.{
  LocalMemories, unready_or, ready_or, first_unready, send_memory, keep_before, first_ready,
  take_or_add, recv_memory,
}

module _ {M : Type 0} where
  abbrev pub send_all : List M → LocalMemories M → LocalMemories M
  send_all [] s = s
  send_all (m ∷ ms) s = send_all ms (send_memory m s)

  -- The values of the futures that `k` receives return
  abbrev pub recv_all : ℕ → LocalMemories M → List (Option M)
  recv_all zero s = []
  recv_all (suc k) s = let (i, t) = recv_memory s in t.value i ∷ recv_all k t

  -- The list has memories that are ready, with these values.
  abbrev Holds : (ℕ → Option M) → ℕ → List ℕ → List M → Type 0
  Holds value made [] [] = Unit
  Holds value made (i ∷ is) (m ∷ ms) = (value i ≡ some m) × (i < made) × Holds value made is ms
  Holds value made _ _ = ⊥

  Holds-unready :
      (value : ℕ → Option M) (made : ℕ) (is : List ℕ) (ms : List M)
      → Holds value made is ms
      → first_unready value is ≡ none
  Holds-unready value made [] [] h = refl
  Holds-unready value made [] (m ∷ ms) h = absurd h
  Holds-unready value made (i ∷ is) [] h = absurd h
  Holds-unready value made (i ∷ is) (m ∷ ms) (e, lt, h) =
      ap (λ v. unready_or v i (first_unready value is)) e ∙ Holds-unready value made is ms h

  Holds-append :
      (value : ℕ → Option M) (made : ℕ) (is : List ℕ) (ms : List M) (m : M)
      → Holds value made is ms
      → Holds (update value made (some m)) (made + 1) (is ++ (made ∷ [])) (ms ++ (m ∷ []))
  Holds-append value made [] [] m h = (update_self value made (some m), omega arith, tt)
  Holds-append value made [] (x ∷ ms) m h = absurd h
  Holds-append value made (i ∷ is) [] m h = absurd h
  Holds-append value made (i ∷ is) (x ∷ ms) m (e, lt, h) = (
    update_ne value made i (some m) (λ e. omega arith) ∙ e,
    omega arith,
    Holds-append value made is ms m h,
  )

  abbrev HasAll : LocalMemories M → List M → Type 0
  HasAll s ms = Holds s.value s.made s.loc_recv_mem_list ms

  send-HasAll :
      (s : LocalMemories M) (ms : List M) (m : M)
      → HasAll s ms
      → HasAll (send_memory m s) (ms ++ (m ∷ []))
  unfolding send_memory
  send-HasAll s ms m h =
      rw (Holds-unready s.value s.made s.loc_recv_mem_list ms h)
        (Holds-append s.value s.made s.loc_recv_mem_list ms m h)

  -- A receive takes the first.
  take-first :
      (s : LocalMemories M) (is : List ℕ) (m : M) (ms : List M)
      → Holds s.value s.made is (m ∷ ms)
      → (i : ℕ) × (rest : List ℕ) × (take_or_add s (first_ready s.value is)
          ≡ (i, record s { loc_recv_mem_list = rest }))
        × (s.value i ≡ some m)
        × Holds s.value s.made rest ms
  take-first s [] m ms h = absurd h
  take-first s (i ∷ is) m ms (e, lt, h) = (
    i,
    is,
    ap (λ v. take_or_add s (ready_or v (i, is) (keep_before i (first_ready s.value is)))) e,
    e,
    h,
  )

  recv_all-HasAll :
      (ms : List M) (s : LocalMemories M) → HasAll s ms → recv_all (length ms) s ≡ map some ms
  unfolding recv_memory
  recv_all-HasAll [] s h = refl
  recv_all-HasAll (m ∷ ms) s h =
      let (i, rest, e, value_i, h') = take-first s s.loc_recv_mem_list m ms h in
      rw (e, value_i)
        (ap (λ l. some m ∷ l) (recv_all-HasAll ms (record s { loc_recv_mem_list = rest }) h'))

  send_all-HasAll :
      (ms old : List M) (s : LocalMemories M) → HasAll s old → HasAll (send_all ms s) (old ++ ms)
  send_all-HasAll [] old s h = rw (append-nil old) h
  send_all-HasAll (m ∷ ms) old s h =
      rw (sym (append_assoc old (m ∷ []) ms))
        (send_all-HasAll ms (old ++ (m ∷ [])) (send_memory m s) (send-HasAll s old m h))

  -- With no memory waiting, memories that a rank sends to itself before it receives any of them come in
  -- the order in which they were sent.
  pub recv_all-send_all :
      (s : LocalMemories M) (ms : List M)
      → s.loc_recv_mem_list ≡ []
      → recv_all (length ms) (send_all ms s) ≡ map some ms
  recv_all-send_all s ms e = recv_all-HasAll ms (send_all ms s) (send_all-HasAll ms [] s (rw e tt))

  -- With no memory waiting, a receive of a rank from itself, then a send, then another receive return
  -- the same future twice, and a memory that is sent next goes to a third receive.
  pub recv_memory_twice :
      (s : LocalMemories M) (m m' : M)
      → s.loc_recv_mem_list ≡ []
      → let (i, s1) = recv_memory s in
        let (j, s2) = recv_memory (send_memory m s1) in
        let (k, s3) = recv_memory (send_memory m' s2) in
        (j ≡ i) × (s3.value i ≡ some m) × (k ≢ i) × (s3.value k ≡ some m')
  unfolding recv_memory send_memory
  recv_memory_twice s m m' e =
      let v0 = update s.value s.made none in
      let v1 = update v0 s.made (some m) in
      let old : update v1 (s.made + 1) (some m') s.made ≡ some m =
        update_ne v1 (s.made + 1) s.made (some m') (λ e. omega arith)
        ∙ update_self v0 s.made (some m) in
      let new = update_self v1 (s.made + 1) (some m') in
      rw (e, update_self s.value s.made none, update_self v0 s.made (some m), new)
        (refl, old, (λ e. omega arith), new)
