-- ===== src/Proxy/Tests.antt =====
-- A loop that is told to stop at its fourth iteration.
use mscclpp.Base.{ℕ, ◌+◌, ◌≤◌, ◌≡◌, refl, Bool, false, none, leb, not, le→leb}
use mscclpp.Trigger.{Trigger}
use mscclpp.Proxy.{HandlerResult, continue, stop_check_period, run}
use mscclpp.Proxy.Stopping.{stop_ends_loop}

abbrev running : ℕ → Bool
running n = not (leb 3 n)

abbrev polled : ℕ → Trigger
polled n = record { fst = n; snd = n }

abbrev handler : Trigger → HandlerResult
handler t = continue

off : (n : ℕ) → 3 ≤ n → running n ≡ false
off n h = rw (le→leb 3 n h) refl

stop_ends_loop_example : run running polled handler (stop_check_period + 1 + 3) ≡ none
stop_ends_loop_example = stop_ends_loop running polled handler 3 off
