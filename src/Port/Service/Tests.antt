-- ===== src/Port/Service/Tests.antt =====
-- A service with one connection, a write queue of 2 requests, and one channel.
use mscclpp.Base.{
  ℕ, ◌-◌, ◌≤◌, ◌≡◌, refl, true, false, Option, none, some, List, [], ◌∷◌, Result, ok, arith,
}
use mscclpp.Trigger.{Request, asserted, make_trigger, fields}
use mscclpp.Port.Device.{Channel, signal as signal_request, put_with_signal_and_flush, wait_flush}
use mscclpp.Port.Service.{
  write, signal, request_flush, Service, init, add_semaphore, add_memory, write_data, write_flag,
  finish, handle_trigger, handle_and_pop, progress_flushes, stop_proxy, Event, synced, handled,
  added, Run, start, adds_semaphore, adds_memory, handles,
}
use mscclpp.Port.Service.Flush.{waits_until_drained, drained_releases_all, stop_releases_all}
use mscclpp.Port.Service.Asked.{Asked, Undrained}
use mscclpp.Port.Service.Queue.{since_flush, queue_bounded}
use mscclpp.Port.Service.Put.{put_with_signal_and_flush_calls}

abbrev queue_sizes : ℕ → Option ℕ
queue_sizes _ = some 2

-- Connection 5, memories 70 and 80
abbrev ready : Service
ready = (add_memory (add_memory (add_semaphore (init queue_sizes) 5).0 70).0 80).0

ready-Run : Run queue_sizes ready (added ∷ added ∷ added ∷ [])
ready-Run = adds_memory 80 (adds_memory 70 (adds_semaphore 5 start))

abbrev channel : Channel
channel = record { semaphore_id = 0; dst = 0; src = 1 }

abbrev request : Request
request = put_with_signal_and_flush channel 16 32 64

put_with_signal_and_flush_calls_example :
    (t : Service) × (handle_trigger ready (fields (make_trigger request)) ≡ ok t)
    × (t.calls ≡ request_flush 5 ∷ signal 5 0 ∷ write 5 70 16 80 32 64 ∷ [])
    × (t.pending_flush_pos 5 ≡ some 0)
    × (t.inflight_requests 5 ≡ 0)
unfolding init add_semaphore add_memory put_with_signal_and_flush asserted
put_with_signal_and_flush_calls_example =
    put_with_signal_and_flush_calls ready channel 5 70 80 16 32 64
      (record { semaphore = refl; dst_memory = refl; src_memory = refl }) refl

abbrev value_or : Service → Result Service → Service
value_or s (ok t) = t
value_or s _ = s

-- The flush at position 0 was asked for.
abbrev asked : Service
asked = value_or ready (handle_and_pop ready request)

abbrev events : List Event
events = synced 5 0 ∷ added ∷ added ∷ added ∷ []

asked-Run : Run queue_sizes asked events
unfolding init add_semaphore add_memory put_with_signal_and_flush handle_and_pop handle_trigger
    write_data write_flag finish
asked-Run = handles request ready-Run refl

waits_until_drained_example : wait_flush (asked.flush_done 5) 0 ≡ true
waits_until_drained_example =
    waits_until_drained queue_sizes asked events 5 0 asked-Run
      (Undrained.now (added ∷ added ∷ added ∷ []))

drained_releases_all_example :
    wait_flush ((progress_flushes (λ _. true) asked).flush_done 5) 0 ≡ false
drained_releases_all_example =
    drained_releases_all queue_sizes asked events (λ _. true) 5 0 asked-Run
      (Asked.now (added ∷ added ∷ added ∷ [])) refl

-- A connection that never drains
stop_releases_all_example :
    ((stop_proxy (λ _ _. false) asked).pending_flush_pos 5 ≡ none)
    × (wait_flush ((stop_proxy (λ _ _. false) asked).flush_done 5) 0 ≡ false)
unfolding init add_semaphore add_memory put_with_signal_and_flush handle_and_pop handle_trigger
    write_data write_flag finish
stop_releases_all_example =
    stop_releases_all queue_sizes asked events (λ _ _. false) 5 0 asked-Run
      (Asked.now (added ∷ added ∷ added ∷ [])) (omega arith)

-- One signal is in flight.
abbrev signaled : Service
signaled = value_or ready (handle_and_pop ready (signal_request channel))

signaled-Run : Run queue_sizes signaled (handled ∷ added ∷ added ∷ added ∷ [])
unfolding init add_semaphore add_memory signal_request handle_and_pop handle_trigger write_data
    write_flag finish
signaled-Run = handles (signal_request channel) ready-Run refl

queue_bounded_example : since_flush 5 signaled.calls ≤ 2 - 1
queue_bounded_example =
    queue_bounded queue_sizes signaled (handled ∷ added ∷ added ∷ added ∷ []) 5 2 signaled-Run refl
