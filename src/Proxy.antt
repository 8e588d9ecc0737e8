-- ===== src/Proxy.antt =====
-- The loop of the proxy thread, `Proxy::start` and `Proxy::stop` of src/core/proxy.cc. What each
-- iteration finds, the flag `running` and the trigger at the tail of the FIFO, is an argument, and so is
-- the handler.
pub mod Stopping
mod Tests
use mscclpp.Base.{
  ℕ, zero, suc, ◌-◌, ◌≡◌, Bool, true, false, ◌||◌, Option, none, some, ◌==◌, if◌then◌else◌,
}
use mscclpp.Trigger.{Trigger, flip}

-- `ProxyHandlerResult`
pub data HandlerResult : Type 0 where
  continue stop : HandlerResult

-- `ProxyStopCheckPeriod`
abbrev pub stop_check_period : ℕ
stop_check_period = 1000

-- What an iteration did: `run_cnt` after it unless it left the loop, and the call of the handler, which
-- is followed by `pop`.
pub record Iteration : Type 0 where
  pub run_cnt : Option ℕ
  pub called : Option Trigger

abbrev pub is_stop : HandlerResult → Bool
is_stop continue = false
is_stop stop = true

-- The part of an iteration after the test of `running`
pub serve : Trigger → (Trigger → HandlerResult) → ℕ → Iteration
serve polled handler run_cnt =
    if (polled.fst == 0) || (polled.snd == 0)
    then record { run_cnt = some run_cnt; called = none }
    else record {
      run_cnt = if is_stop (handler (flip polled)) then none else some run_cnt;
      called = some (flip polled);
    }

-- One iteration; `runCnt--` is after the test.
pub iterate : Bool → Trigger → (Trigger → HandlerResult) → ℕ → Iteration
iterate running polled handler run_cnt =
    if run_cnt == 0
    then (if running
        then serve polled handler stop_check_period
        else record { run_cnt = none; called = none })
    else serve polled handler (run_cnt - 1)

abbrev pub next : Bool → Trigger → (Trigger → HandlerResult) → Option ℕ → Option ℕ
next running polled handler none = none
next running polled handler (some run_cnt) = (iterate running polled handler run_cnt).run_cnt

-- `run_cnt` after the first `n` iterations, or `none` once the loop was left.
pub run : (ℕ → Bool) → (ℕ → Trigger) → (Trigger → HandlerResult) → ℕ → Option ℕ
run running polled handler zero = some stop_check_period
run running polled handler (suc n) =
    next (running n) (polled n) handler (run running polled handler n)
