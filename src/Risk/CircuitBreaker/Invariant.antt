-- ===== src/Risk/CircuitBreaker/Invariant.antt =====
-- What holds of the circuit breaker between two calls, whatever is called and when.
use poly_bot.Prelude.{
  ℕ, ◌<◌, ◌≡◌, Bool, true, false, Option, none, some, List, [], ◌∷◌, is_some, arith, not, ltb,
  Bool-cases, inl, inr, if◌then◌else◌,
}
use poly_bot.Types.{Key, ErrorType, retryable, fatal, expected}
use poly_bot.Risk.CircuitBreaker.{
  OpenReason, CircuitState, closed, CircuitBreaker, with_thresholds, reset_counters, open_with,
  is_trading_allowed, record_order_submitted, record_order_result, record_ws_disconnect,
  record_ws_reconnect, record_reconciliation_failure, record_daily_loss_exceeded, manual_open,
  force_close, maybe_reset_window, record_success, record_fatal, check_reject_rate, exceeds_rate,
}

-- A call of the breaker's interface.
pub data Event : Type 0 where
  submitted ws_disconnect ws_reconnect daily_loss manual forced_closed counters_reset asked : Event
  result : Option ErrorType → Event
  reconciliation_failed : Key → Event

unfoldable pub step : CircuitBreaker → Event → ℕ → CircuitBreaker
step cb Event.submitted now = record_order_submitted now cb
step cb Event.ws_disconnect now = record_ws_disconnect now cb
step cb Event.ws_reconnect now = record_ws_reconnect cb
step cb Event.daily_loss now = record_daily_loss_exceeded now cb
step cb Event.manual now = manual_open now cb
step cb Event.forced_closed now = force_close now cb
step cb Event.counters_reset now = reset_counters cb now
step cb Event.asked now = (is_trading_allowed now cb).0
step cb (Event.result e) now = record_order_result e now cb
step cb (Event.reconciliation_failed details) now = record_reconciliation_failure details now cb

-- Calls at the times that go with them.
unfoldable pub run : CircuitBreaker → List (Event × ℕ) → CircuitBreaker
run cb [] = cb
run cb ((e, now) ∷ es) = run (step cb e now) es

abbrev pub is_closed : CircuitState → Bool
is_closed closed = true
is_closed _ = false

-- There is a reason and a time exactly when the circuit is not closed, a closed circuit has not met
-- its threshold of errors, and the successes of a half-open one do not close it yet.
pub record IsConsistent (cb : CircuitBreaker) : Type 0 where
  pub has_reason : is_some cb.open_reason ≡ not (is_closed cb.state)
  pub has_time : is_some cb.opened_at ≡ not (is_closed cb.state)
  pub below_threshold :
      (if is_closed cb.state then ltb cb.fatal_error_count cb.fatal_threshold else true) ≡ true
  pub below_successes : cb.half_open_successes < cb.half_open_success_required
  pub threshold_pos : 0 < cb.fatal_threshold

with_thresholds-IsConsistent : (t r d now : ℕ) → 0 < t → IsConsistent (with_thresholds t r d now)
unfolding with_thresholds
with_thresholds-IsConsistent t r d now h = ground arith

maybe_reset_window-IsConsistent :
    (cb : CircuitBreaker) (now : ℕ) → IsConsistent cb → IsConsistent (maybe_reset_window now cb)
unfolding maybe_reset_window
maybe_reset_window-IsConsistent cb now h = ground arith

record_success-IsConsistent :
    (cb : CircuitBreaker) (now : ℕ) → IsConsistent cb → IsConsistent (record_success now cb)
unfolding record_success
record_success-IsConsistent cb now h = ground arith

-- Opening restores what a count at the threshold broke.
open_with-IsConsistent :
    (cb : CircuitBreaker) (r : OpenReason) (now : ℕ)
    → is_some cb.open_reason ≡ not (is_closed cb.state)
    → is_some cb.opened_at ≡ not (is_closed cb.state)
    → cb.half_open_successes < cb.half_open_success_required
    → 0 < cb.fatal_threshold
    → IsConsistent (open_with r now cb)
unfolding open_with
open_with-IsConsistent cb r now h1 h2 h3 h4 = ground arith

check_reject_rate-IsConsistent :
    (cb : CircuitBreaker) (now : ℕ) → IsConsistent cb → IsConsistent (check_reject_rate now cb)
unfolding check_reject_rate
check_reject_rate-IsConsistent cb now h = elim (Bool-cases (exceeds_rate cb)) [
  | inl e ↦ ground arith
  | inr e ↦ ground arith
]

record_fatal-IsConsistent :
    (cb : CircuitBreaker) (now : ℕ) → IsConsistent cb → IsConsistent (record_fatal now cb)
unfolding record_fatal
record_fatal-IsConsistent cb now h = ground (arith, h)

step-IsConsistent :
    (cb : CircuitBreaker) (e : Event) (now : ℕ) → IsConsistent cb → IsConsistent (step cb e now)
unfolding step reset_counters
step-IsConsistent cb Event.submitted now h = unfold record_order_submitted in ground arith
step-IsConsistent cb Event.ws_disconnect now h = unfold record_ws_disconnect in ground arith
step-IsConsistent cb Event.ws_reconnect now h = unfold record_ws_reconnect in ground arith
step-IsConsistent cb Event.daily_loss now h = unfold record_daily_loss_exceeded in ground arith
step-IsConsistent cb Event.manual now h = unfold manual_open in ground arith
step-IsConsistent cb Event.forced_closed now h = unfold force_close in ground arith
step-IsConsistent cb Event.counters_reset now h = ground arith
step-IsConsistent cb Event.asked now h = unfold is_trading_allowed in ground arith
step-IsConsistent cb (Event.result none) now h =
    unfold record_order_result in
    record_success-IsConsistent _ now (maybe_reset_window-IsConsistent cb now h)
step-IsConsistent cb (Event.result (some fatal)) now h =
    unfold record_order_result in
    record_fatal-IsConsistent _ now (maybe_reset_window-IsConsistent cb now h)
step-IsConsistent cb (Event.result (some retryable)) now h =
    unfold record_order_result in maybe_reset_window-IsConsistent cb now h
step-IsConsistent cb (Event.result (some expected)) now h =
    unfold record_order_result in maybe_reset_window-IsConsistent cb now h
step-IsConsistent cb (Event.reconciliation_failed d) now h =
    unfold record_reconciliation_failure in ground arith

run_keeps :
    (es : List (Event × ℕ)) (cb : CircuitBreaker) → IsConsistent cb → IsConsistent (run cb es)
unfolding run
run_keeps [] cb h = h
run_keeps ((e, now) ∷ es) cb h = run_keeps es (step cb e now) (step-IsConsistent cb e now h)

-- Whatever is called and when, a circuit breaker with a positive threshold has a reason and a time
-- of opening exactly when it is not closed, is never closed at its threshold, and never half open
-- with the successes that would close it.
pub run-IsConsistent :
    (t r d start : ℕ) (es : List (Event × ℕ))
    → 0 < t
    → IsConsistent (run (with_thresholds t r d start) es)
run-IsConsistent t r d start es h = run_keeps es _ (with_thresholds-IsConsistent t r d start h)
