-- ===== src/Port/Service/Effects.antt =====
-- `ProxyService` of src/core/port_channel.cc: what a handled trigger leaves as it was, and what it does
-- to the flushes under way.
use mscclpp.Base.{
  ℕ, ◌≡◌, refl, inl, inr, Option, none, some, get_elem?, ok, >>=-eq-ok, Bool-cases, subst, sym, ◌∙◌,
}
use mscclpp.Trigger.{Request, trigger_data, trigger_flag}
use mscclpp.Port.Service.{
  write, signal, Service, at, in_range, has, posted, write_data, write_flag, finish, handle_trigger,
}

pub in_range-eq-ok : (o : Option ℕ) (x : ℕ) → in_range o ≡ ok x → o ≡ some x
in_range-eq-ok none x h = absurd cc
in_range-eq-ok (some y) x h = cc

pub ok-inj : {A : Type 0} (a b : A) → ok a ≡ ok b → a ≡ b
ok-inj a b h = cc

-- The parts of the state that only `finish` or nothing changes.
pub record Same (s t : Service) : Type 0 where
  pub semaphores : t.semaphores ≡ s.semaphores
  pub max_write_queue_size : t.max_write_queue_size ≡ s.max_write_queue_size
  pub pending_flush_pos : t.pending_flush_pos ≡ s.pending_flush_pos
  pub flush_done : t.flush_done ≡ s.flush_done
  pub tail : t.tail ≡ s.tail

same : (s : Service) → Same s s
same s = record {
  semaphores = refl;
  max_write_queue_size = refl;
  pending_flush_pos = refl;
  flush_done = refl;
  tail = refl;
}

-- A posted call, or none: what `write_data` and `write_flag` do.
pub data Posting (conn : ℕ) (s : Service) : Service → Type 0 where
  nothing : Posting conn s s
  write_posted :
      (dst dst_offset src src_offset size : ℕ)
      → Posting conn s (posted s conn (write conn dst dst_offset src src_offset size))
  signal_posted : (id : ℕ) → Posting conn s (posted s conn (signal conn id))

Posting-Same : (conn : ℕ) (s t : Service) → Posting conn s t → Same s t
Posting-Same conn s t nothing = same s
Posting-Same conn s t (write_posted a b c d e) = record {
  semaphores = refl;
  max_write_queue_size = refl;
  pending_flush_pos = refl;
  flush_done = refl;
  tail = refl;
}
Posting-Same conn s t (signal_posted id) = record {
  semaphores = refl;
  max_write_queue_size = refl;
  pending_flush_pos = refl;
  flush_done = refl;
  tail = refl;
}

write_data-Posting :
    (s t : Service) (conn : ℕ) (r : Request) → write_data s conn r ≡ ok t → Posting conn s t
unfolding write_data
write_data-Posting s t conn r h = elim (Bool-cases (has r trigger_data)) [
  | inr f ↦ let h' : ok s ≡ ok t = rw f at h in subst (Posting conn s) (ok-inj s t h') nothing
  | inl e ↦
      let (dst, _, h1) = >>=-eq-ok (at s.memories r.dst_id) _ (rw e at h) in
      let (src, _, h2) = >>=-eq-ok (at s.memories r.src_id) _ h1 in
      subst (Posting conn s) (ok-inj _ t h2)
        (write_posted dst r.dst_offset src r.src_offset r.bytes)
]

write_flag-Posting : (s : Service) (conn : ℕ) (r : Request) → Posting conn s (write_flag s conn r)
unfolding write_flag
write_flag-Posting s conn r = elim (Bool-cases (has r trigger_flag)) [
  | inr f ↦ rw f nothing
  | inl e ↦ rw e (signal_posted r.semaphore_id)
]

-- A handled trigger is at most two postings and the end of the handler.
pub record Handled (s t : Service) (r : Request) : Type 0 where
  pub conn : ℕ
  pub found : get_elem? s.semaphores r.semaphore_id ≡ some conn
  pub written : Service
  pub signaled : Service
  pub posting_data : Posting conn s written
  pub posting_flag : Posting conn written signaled
  pub result : t ≡ finish signaled conn r

pub handle_trigger-Handled :
    (s t : Service) (r : Request) → handle_trigger s r ≡ ok t → Handled s t r
unfolding handle_trigger
handle_trigger-Handled s t r h =
    let (conn, e, h1) = >>=-eq-ok (at s.semaphores r.semaphore_id) _ h in
    let (written, e', h2) = >>=-eq-ok (write_data s conn r) _ h1 in
    record {
      conn = conn;
      found = in_range-eq-ok (get_elem? s.semaphores r.semaphore_id) conn e;
      written = written;
      signaled = write_flag written conn r;
      posting_data = write_data-Posting s written conn r e';
      posting_flag = write_flag-Posting written conn r;
      result = sym (ok-inj (finish (write_flag written conn r) conn r) t h2);
    }

pub Handled-Same : (s t : Service) (r : Request) (h : Handled s t r) → Same s h.signaled
Handled-Same s t r h =
    let a = Posting-Same h.conn s h.written h.posting_data in
    let b = Posting-Same h.conn h.written h.signaled h.posting_flag in
    record {
      semaphores = b.semaphores ∙ a.semaphores;
      max_write_queue_size = b.max_write_queue_size ∙ a.max_write_queue_size;
      pending_flush_pos = b.pending_flush_pos ∙ a.pending_flush_pos;
      flush_done = b.flush_done ∙ a.flush_done;
      tail = b.tail ∙ a.tail;
    }
