-- ===== src/Execution/Executor/Submissions.antt =====
-- The executor never counts an order as submitted.
use poly_bot.Prelude.{ℕ, ◌≡◌, u32, ◌+◌, Bool, true, false, Option, none, some, List, [], ◌∷◌, arith}
use poly_bot.Decimal.{DecimalOps}
use poly_bot.Types.{Key, retryable, fatal, expected}
use poly_bot.Risk.CircuitBreaker.{
  CircuitBreaker, OpenReason, reject_rate_exceeded, is_trading_allowed, record_order_result,
  manual_open, maybe_reset_window, record_success, record_fatal, check_reject_rate, open_with,
  close, reset_counters, exceeds_rate,
}
use poly_bot.Risk.CircuitBreaker.Invariant.{Event, step, run}
use poly_bot.Execution.Policy.{IntentRef, OrderParams}
use poly_bot.Execution.Executor.{OrderExecutor, Leg, Attempt, execute_grouped}
use poly_bot.Execution.Executor.Calls.{is_execution, are_execution, execute_grouped-Drives}

-- No order has been counted, and the rate of rejects has not opened the circuit.
abbrev pub is_reject_rate : Option OpenReason → Bool
is_reject_rate (some (reject_rate_exceeded rejected submitted)) = true
is_reject_rate _ = false

pub record IsUncounted (cb : CircuitBreaker) : Type 0 where
  pub no_orders : cb.orders_submitted ≡ 0
  pub other_reason : is_reject_rate cb.open_reason ≡ false

maybe_reset_window-IsUncounted :
    (cb : CircuitBreaker) (now : ℕ) → IsUncounted cb → IsUncounted (maybe_reset_window now cb)
unfolding maybe_reset_window
maybe_reset_window-IsUncounted cb now h = ground arith

record_success-IsUncounted :
    (cb : CircuitBreaker) (now : ℕ) → IsUncounted cb → IsUncounted (record_success now cb)
unfolding record_success close reset_counters
record_success-IsUncounted cb now h = ground arith

-- the breaker with one more reject and one more fatal error
abbrev rejected_once : CircuitBreaker → CircuitBreaker
rejected_once cb = record cb {
  orders_rejected = u32 (cb.orders_rejected + 1);
  fatal_error_count = u32 (cb.fatal_error_count + 1);
}

record_fatal-IsUncounted :
    (cb : CircuitBreaker) (now : ℕ) → IsUncounted cb → IsUncounted (record_fatal now cb)
unfolding record_fatal check_reject_rate open_with
record_fatal-IsUncounted cb now h =
    let none_counted : exceeds_rate (rejected_once cb) ≡ false = ground arith in ground arith

step-IsUncounted :
    (cb : CircuitBreaker) (e : Event) (now : ℕ)
    → is_execution e ≡ true
    → IsUncounted cb
    → IsUncounted (step cb e now)
unfolding step
step-IsUncounted cb Event.asked now h u = unfold is_trading_allowed in ground arith
step-IsUncounted cb Event.manual now h u = unfold manual_open open_with in ground arith
step-IsUncounted cb (Event.result none) now h u =
    unfold record_order_result in
    record_success-IsUncounted _ now (maybe_reset_window-IsUncounted cb now u)
step-IsUncounted cb (Event.result (some fatal)) now h u =
    unfold record_order_result in
    record_fatal-IsUncounted _ now (maybe_reset_window-IsUncounted cb now u)
step-IsUncounted cb (Event.result (some retryable)) now h u =
    unfold record_order_result in maybe_reset_window-IsUncounted cb now u
step-IsUncounted cb (Event.result (some expected)) now h u =
    unfold record_order_result in maybe_reset_window-IsUncounted cb now u
step-IsUncounted cb Event.submitted now h u = cc
step-IsUncounted cb Event.ws_disconnect now h u = cc
step-IsUncounted cb Event.ws_reconnect now h u = cc
step-IsUncounted cb Event.daily_loss now h u = cc
step-IsUncounted cb Event.forced_closed now h u = cc
step-IsUncounted cb Event.counters_reset now h u = cc
step-IsUncounted cb (Event.reconciliation_failed d) now h u = cc

run-IsUncounted :
    (es : List (Event × ℕ)) (cb : CircuitBreaker)
    → are_execution es ≡ true
    → IsUncounted cb
    → IsUncounted (run cb es)
unfolding run
run-IsUncounted [] cb h u = u
run-IsUncounted ((e, now) ∷ es) cb h u =
    run-IsUncounted es (step cb e now) (ground arith) (step-IsUncounted cb e now (ground arith) u)

-- The executor counts no order as submitted, so the rate of rejects never opens the circuit: where
-- no order is counted and the rate is not the reason at first, so it is after any execution of a
-- group.
pub execute_grouped-IsUncounted :
    ⦃o : DecimalOps⦄ (to_order_params : IntentRef → ℕ → OrderParams) (unwind_name : Key → Key)
    (e : OrderExecutor) (legs : List Leg) (now later budget : ℕ) (attempt : ℕ → Attempt)
    → IsUncounted e.circuit_breaker
    → IsUncounted
        (execute_grouped unwind_name to_order_params e legs now later budget
          attempt).0.circuit_breaker
execute_grouped-IsUncounted to_order_params unwind_name e legs now later budget attempt u =
    let (es, h, p) =
      execute_grouped-Drives to_order_params unwind_name e legs now later budget attempt in
    rw p (run-IsUncounted es e.circuit_breaker h u)
