-- ===== src/Port/Service/Flush.antt =====
-- `ProxyService` of src/core/port_channel.cc with `waitFlush` of
-- include/mscclpp/port_channel_device.hpp: which flushes the device may see as done.
use mscclpp.Base.{
  ℕ, zero, suc, ◌≤◌, ◌<◌, ◌≡◌, refl, ◌≢◌, ◌⊎◌, inl, inr, Bool, true, false, Option, none, some,
  List, ◌∷◌, arith, le→leb, lt→leb_false,
}
use mscclpp.Port.Device.{wait_flush}
use mscclpp.Port.Service.{
  Service, progress_flushes, drain, sentinel, final, stop_proxy, Event, progressed, Run, progresses,
}
use mscclpp.Port.Service.Asked.{Asked, Undrained, Inv}
use mscclpp.Port.Service.Pending.{Run-Inv, progressed-Inv}

-- While the service runs, a device thread that waits for the flush which it asked for at `pos` stays
-- in its loop until the connection was found drained after the request.
pub waits_until_drained :
    (q : ℕ → Option ℕ) (s : Service) (es : List Event) (conn pos : ℕ)
    → Run q s es
    → Undrained conn pos es
    → wait_flush (s.flush_done conn) pos ≡ true
unfolding wait_flush
waits_until_drained q s es conn pos r u =
    le→leb (s.flush_done conn) pos ((Run-Inv q s es r).undrained conn pos u)

drained_none :
    (s : Service) (drained : ℕ → Bool) (c p : ℕ)
    → drained c ≡ true
    → (progress_flushes drained s).pending_flush_pos c ≢ some p
unfolding progress_flushes
drained_none s drained c p d e = let e' = rw d at e in absurd cc

final_lt :
    (pos tail done : ℕ) (o : Option ℕ)
    → ((q : ℕ) → o ≡ some q → (q < tail) × (done ≤ q))
    → (pos < done) ⊎ (q : ℕ) × (o ≡ some q) × (pos ≤ q)
    → tail ≤ sentinel
    → pos < final o done
final_lt pos tail done none h (inl lt) le = lt
final_lt pos tail done none h (inr (q, e, _)) le = absurd cc
final_lt pos tail done (some p) h (inl lt) le = let (b, c) = h p refl in omega arith
final_lt pos tail done (some p) h (inr (q, e, c)) le =
    let (b, _) = h p refl in let same : p ≡ q = cc in omega arith

-- A call of `progressFlushes` that finds a connection drained releases every thread whose request for a
-- flush of it the proxy thread has handled, whichever of them was overwritten by a later one.
pub drained_releases_all :
    (q : ℕ → Option ℕ) (s : Service) (es : List Event) (drained : ℕ → Bool) (conn pos : ℕ)
    → Run q s es
    → Asked conn pos es
    → drained conn ≡ true
    → wait_flush ((progress_flushes drained s).flush_done conn) pos ≡ false
unfolding wait_flush
drained_releases_all q s es drained conn pos r a d =
    let v =
      Run-Inv q (progress_flushes drained s) (progressed drained ∷ es) (progresses drained r) in
    elim (v.asked conn pos (Asked.before (progressed drained) es a)) [
      | inl done ↦ lt→leb_false pos ((progress_flushes drained s).flush_done conn) done
      | inr (p, e, le) ↦ absurd (drained_none s drained conn p d e)
    ]

drained-Inv :
    (rounds : ℕ) (drained : ℕ → ℕ → Bool) (s : Service) (es : List Event)
    → Inv s es
    → (es' : List Event) × Inv (drain rounds drained s) es'
      × ((c p : ℕ) → Asked c p es → Asked c p es')
      × ((drain rounds drained s).tail ≡ s.tail)
unfolding drain progress_flushes
drained-Inv zero drained s es v = (es, v, λ c p a. a, refl)
drained-Inv (suc rounds) drained s es v =
    let e = progressed (drained rounds) in
    let (es', v', later, tail) =
      drained-Inv rounds drained (progress_flushes (drained rounds) s) (e ∷ es)
        (progressed-Inv s es (drained rounds) v) in
    (es', v', λ c p a. later c p (Asked.before e es a), tail)

-- `stopProxy` leaves no flush pending and releases every thread whose request for a flush the proxy
-- thread has handled, whatever the connections do, as long as the positions of the FIFO are below the
-- sentinel. A request that is still in the FIFO is not handled.
pub stop_releases_all :
    (q : ℕ → Option ℕ) (s : Service) (es : List Event) (drained : ℕ → ℕ → Bool) (conn pos : ℕ)
    → Run q s es
    → Asked conn pos es
    → s.tail ≤ sentinel
    → ((stop_proxy drained s).pending_flush_pos conn ≡ none)
      × (wait_flush ((stop_proxy drained s).flush_done conn) pos ≡ false)
unfolding wait_flush stop_proxy
stop_releases_all q s es drained conn pos r a h =
    let (es', v, later, tail) = drained-Inv 1000 drained s es (Run-Inv q s es r) in
    let t = drain 1000 drained s in
    (
      refl,
      lt→leb_false pos _ (
          final_lt pos t.tail (t.flush_done conn) (t.pending_flush_pos conn) (v.above conn)
            (v.asked conn pos (later conn pos a)) (omega arith)),
    )
