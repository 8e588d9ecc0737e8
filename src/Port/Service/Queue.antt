-- ===== src/Port/Service/Queue.antt =====
-- `ProxyService` of src/core/port_channel.cc: flow control. The number of requests in flight is what the
-- calls of a connection say, and stays below the size of its write queue.
use mscclpp.Base.{
  ℕ, suc, ◌+◌, ◌-◌, ◌≤◌, ◌≡◌, refl, sym, ap, ◌∙◌, subst, ◌≢◌, inl, inr, false, Option, some, List,
  [], ◌∷◌, ok, >>=-eq-ok, update, update_self, update_ne, Bool-cases, if◌then◌else◌, arith,
  ℕ_discrete, ◌==◌,
}
use mscclpp.Trigger.{Request, trigger_sync}
use mscclpp.Port.Service.{
  Call, write, signal, request_flush, flush, Service, init, add_semaphore, add_memory, has, is_full,
  finish, handle_trigger, handle_and_pop, progress_flushes, Event, Run, start, adds_semaphore,
  adds_memory, handles, progresses,
}
use mscclpp.Port.Service.Effects.{
  ok-inj, Posting, nothing, write_posted, signal_posted, handle_trigger-Handled, Handled-Same,
}

-- The requests that a connection got since its last flush, from the list of all calls.
abbrev pub since_flush : ℕ → List Call → ℕ
since_flush c [] = 0
since_flush c (write conn _ _ _ _ _ ∷ cs) =
    let rest = since_flush c cs in if conn == c then suc rest else rest
since_flush c (signal conn _ ∷ cs) =
    let rest = since_flush c cs in if conn == c then suc rest else rest
since_flush c (request_flush conn ∷ cs) =
    let rest = since_flush c cs in if conn == c then 0 else rest
since_flush c (flush conn ∷ cs) = let rest = since_flush c cs in if conn == c then 0 else rest

abbrev Counts : Service → Type 0
Counts s = (c : ℕ) → s.inflight_requests c ≡ since_flush c s.calls

abbrev Bounded : Service → ℕ → Type 0
Bounded s c = (m : ℕ) → s.max_write_queue_size c ≡ some m → s.inflight_requests c ≤ m - 1

update_counts :
    (f : ℕ → ℕ) (conn new c rest : ℕ)
    → f c ≡ rest
    → update f conn new c ≡ (if conn == c then new else rest)
update_counts f conn new c rest h = ground arith

suc_counts :
    (f : ℕ → ℕ) (conn c rest : ℕ)
    → f c ≡ rest
    → update f conn (f conn + 1) c ≡ (if conn == c then suc rest else rest)
suc_counts f conn c rest h = elim (ℕ_discrete conn c) [
  | yes e ↦ let same = ap f e in ground (arith, same)
  | no ne ↦ ground arith
]

Posting-Counts :
    (conn : ℕ) (s t : Service)
    → Posting conn s t
    → Counts s
    → Counts t × ((c : ℕ) → conn ≢ c → t.inflight_requests c ≡ s.inflight_requests c)
Posting-Counts conn s t nothing v = (v, λ c ne. refl)
Posting-Counts conn s t (write_posted a b c d e) v = (
  λ k. suc_counts s.inflight_requests conn k (since_flush k s.calls) (v k),
  λ k ne. update_ne s.inflight_requests conn k (s.inflight_requests conn + 1) ne,
)
Posting-Counts conn s t (signal_posted id) v = (
  λ k. suc_counts s.inflight_requests conn k (since_flush k s.calls) (v k),
  λ k ne. update_ne s.inflight_requests conn k (s.inflight_requests conn + 1) ne,
)

finish-Counts :
    (s : Service) (conn : ℕ) (r : Request)
    → Counts s
    → Counts (finish s conn r)
      × ((c : ℕ) → conn ≢ c → (finish s conn r).inflight_requests c ≡ s.inflight_requests c)
      × Bounded (finish s conn r) conn
      × ((finish s conn r).max_write_queue_size ≡ s.max_write_queue_size)
unfolding finish
finish-Counts s conn r v = elim (Bool-cases (has r trigger_sync)) [
  | inl t ↦ rw t (emptied, untouched, none_left, refl)
  | inr f ↦ elim (Bool-cases (is_full (s.max_write_queue_size conn) (s.inflight_requests conn))) [
    | inl t ↦ rw (f, t) (emptied, untouched, none_left, refl)
    | inr t ↦ rw (f, t) (v, λ c ne. refl, room t, refl)
  ]
]
  where
    emptied :
        (c : ℕ)
        → update s.inflight_requests conn 0 c ≡ (if conn == c then 0 else since_flush c s.calls)
    emptied c = update_counts s.inflight_requests conn 0 c (since_flush c s.calls) (v c)

    untouched : (c : ℕ) → conn ≢ c → update s.inflight_requests conn 0 c ≡ s.inflight_requests c
    untouched c ne = update_ne s.inflight_requests conn c 0 ne

    none_left :
        (m : ℕ)
        → s.max_write_queue_size conn ≡ some m
        → update s.inflight_requests conn 0 conn ≤ m - 1
    none_left m e = rw (update_self s.inflight_requests conn 0) (omega arith)

    room : is_full (s.max_write_queue_size conn) (s.inflight_requests conn) ≡ false → Bounded s conn
    room f m e = let f' = rw e at f in ground (arith, f')

record Inv (q : ℕ → Option ℕ) (s : Service) : Type 0 where
  sizes : s.max_write_queue_size ≡ q
  counts : Counts s
  bounded : (c : ℕ) → Bounded s c

init-Inv : (q : ℕ → Option ℕ) → Inv q (init q)
unfolding init
init-Inv q = record { sizes = refl; counts = λ c. refl; bounded = λ c m e. omega arith }

handle_trigger-Inv :
    (q : ℕ → Option ℕ) (s t : Service) (r : Request) → handle_trigger s r ≡ ok t → Inv q s → Inv q t
handle_trigger-Inv q s t r h v =
    let d = handle_trigger-Handled s t r h in
    let m = Handled-Same s t r d in
    let (counts_data, keeps_data) = Posting-Counts d.conn s d.written d.posting_data v.counts in
    let (counts_flag, keeps_flag) =
      Posting-Counts d.conn d.written d.signaled d.posting_flag counts_data in
    let (counts, keeps, bounded, sizes) = finish-Counts d.signaled d.conn r counts_flag in
    rw d.result record {
      sizes = sizes ∙ m.max_write_queue_size ∙ v.sizes;
      counts = counts;
      bounded = λ c. elim (ℕ_discrete d.conn c) [
        | yes e ↦ subst (Bounded (finish d.signaled d.conn r)) e bounded
        | no ne ↦ λ n size.
            rw (keeps c ne, keeps_flag c ne, keeps_data c ne)
              (v.bounded c n (sym (ap (λ f. f c) (sizes ∙ m.max_write_queue_size)) ∙ size))
      ];
    }

handle_and_pop-Inv :
    (q : ℕ → Option ℕ) (s t : Service) (r : Request) → handle_and_pop s r ≡ ok t → Inv q s → Inv q t
unfolding handle_and_pop
handle_and_pop-Inv q s t r h v =
    let (u, e, e') = >>=-eq-ok (handle_trigger s r) _ h in
    let w = handle_trigger-Inv q s u r e v in
    subst (Inv q) (ok-inj (record u { tail = u.tail + 1 }) t e')
      (record { sizes = w.sizes; counts = w.counts; bounded = w.bounded })

Run-Inv : (q : ℕ → Option ℕ) (s : Service) (es : List Event) → Run q s es → Inv q s
unfolding add_semaphore add_memory progress_flushes
Run-Inv q s es start = init-Inv q
Run-Inv q s es (adds_semaphore {s = u} {es = es'} conn r) =
    let v = Run-Inv q u es' r in record { sizes = v.sizes; counts = v.counts; bounded = v.bounded }
Run-Inv q s es (adds_memory {s = u} {es = es'} memory r) =
    let v = Run-Inv q u es' r in record { sizes = v.sizes; counts = v.counts; bounded = v.bounded }
Run-Inv q s es (handles {s = u} {es = es'} r run h) =
    handle_and_pop-Inv q u s r h (Run-Inv q u es' run)
Run-Inv q s es (progresses {s = u} {es = es'} drained r) =
    let v = Run-Inv q u es' r in record { sizes = v.sizes; counts = v.counts; bounded = v.bounded }

-- Between two triggers, a connection with a write queue of `size` requests got fewer than `size`
-- writes and signals since its last flush, or since the last request for one; with `size` 0 it got
-- none.
pub queue_bounded :
    (q : ℕ → Option ℕ) (s : Service) (es : List Event) (conn size : ℕ)
    → Run q s es
    → q conn ≡ some size
    → since_flush conn s.calls ≤ size - 1
queue_bounded q s es conn size r e =
    let v = Run-Inv q s es r in
    rw (sym (v.counts conn)) (v.bounded conn size (ap (λ f. f conn) v.sizes ∙ e))
