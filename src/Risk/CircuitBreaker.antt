-- ===== src/Risk/CircuitBreaker.antt =====
-- src/risk/circuit_breaker.rs: `CircuitBreaker`. Times are numbers of one clock, and `now` is the
-- time that a method reads. The reject rate, an `f64` quotient of two counters, is kept as the two
-- counters, and the threshold, a literal of two decimals, in hundredths: `rate > threshold` is
-- compared by cross multiplication, which for 32-bit counters agrees with the rounded quotient.
pub mod Invariant
pub mod Barring
pub mod Traces
pub mod Recovery
mod Examples
use poly_bot.Prelude.{
  ℕ, ◌+◌, ◌-◌, ◌*◌, Bool, true, false, ◌&&◌, Option, none, some, u32, ltb, leb, ◌==◌, if◌then◌else◌,
}
use poly_bot.Types.{Key, ErrorType, retryable, fatal, expected}

pub data CircuitState : Type 0 where
  closed open_circuit half_open : CircuitState

pub data OpenReason : Type 0 where
  fatal_error_threshold : (count : ℕ) → OpenReason
  reject_rate_exceeded : (rejected submitted : ℕ) → OpenReason
  web_socket_disconnect : OpenReason
  reconciliation_failure : (details : Key) → OpenReason
  manual_trigger daily_loss_exceeded : OpenReason

pub record CircuitBreaker : Type 0 where
  pub state : CircuitState
  pub open_reason : Option OpenReason
  pub opened_at : Option ℕ
  pub fatal_error_count : ℕ
  pub orders_submitted : ℕ
  pub orders_rejected : ℕ
  pub reset_timeout : ℕ
  pub fatal_threshold : ℕ
  pub reject_rate_threshold : ℕ
  pub half_open_success_required : ℕ
  pub half_open_successes : ℕ
  pub window_start : ℕ
  pub window_duration : ℕ

pub record CircuitBreakerStats : Type 0 where
  pub state : CircuitState
  pub fatal_error_count : ℕ
  pub orders_submitted : ℕ
  pub orders_rejected : ℕ
  pub reject_rate : ℕ × ℕ
  pub open_reason : Option OpenReason

-- The constants of src/constants.rs, with the clock in seconds.
abbrev pub circuit_reset_timeout : ℕ
circuit_reset_timeout = 60

abbrev pub circuit_breaker_threshold : ℕ
circuit_breaker_threshold = 5

-- 0.20
abbrev pub default_reject_rate_threshold : ℕ
default_reject_rate_threshold = 20

unfoldable pub with_thresholds :
    (fatal_threshold reject_rate_threshold reset_timeout now : ℕ) → CircuitBreaker
with_thresholds fatal_threshold reject_rate_threshold reset_timeout now = record {
  state = closed;
  open_reason = none;
  opened_at = none;
  fatal_error_count = 0;
  orders_submitted = 0;
  orders_rejected = 0;
  reset_timeout = reset_timeout;
  fatal_threshold = fatal_threshold;
  reject_rate_threshold = reject_rate_threshold;
  half_open_success_required = 3;
  half_open_successes = 0;
  window_start = now;
  window_duration = 60;
}

unfoldable pub new : ℕ → CircuitBreaker
unfolding with_thresholds
new = with_thresholds circuit_breaker_threshold default_reject_rate_threshold circuit_reset_timeout

unfoldable pub reset_counters : CircuitBreaker → ℕ → CircuitBreaker
reset_counters cb now = record cb {
  fatal_error_count = 0;
  orders_submitted = 0;
  orders_rejected = 0;
  half_open_successes = 0;
  window_start = now;
}

abbrev pub opened : CircuitState → OpenReason → ℕ → CircuitBreaker → CircuitBreaker
opened open_circuit reason now cb = cb
opened _ reason now cb = record cb {
  state = open_circuit;
  open_reason = some reason;
  opened_at = some now;
  half_open_successes = 0;
}

-- `open`: an open circuit keeps its first reason.
unfoldable pub open_with : OpenReason → ℕ → CircuitBreaker → CircuitBreaker
open_with reason now cb = opened cb.state reason now cb

unfoldable pub close : ℕ → CircuitBreaker → CircuitBreaker
unfolding reset_counters
close now cb =
    reset_counters (record cb { state = closed; open_reason = none; opened_at = none }) now

unfoldable pub transition_to_half_open : CircuitBreaker → CircuitBreaker
transition_to_half_open cb = record cb { state = half_open; half_open_successes = 0 }

-- The test of `maybe_transition_to_half_open` in an open circuit.
abbrev pub is_due : Option ℕ → (reset_timeout now : ℕ) → Bool
is_due none reset_timeout now = false
is_due (some opened_at) reset_timeout now = leb reset_timeout (now - opened_at)

abbrev pub is_open : CircuitState → Bool
is_open open_circuit = true
is_open _ = false

abbrev pub is_half_open : CircuitState → Bool
is_half_open half_open = true
is_half_open _ = false

unfoldable pub maybe_transition_to_half_open : ℕ → CircuitBreaker → CircuitBreaker
unfolding transition_to_half_open
maybe_transition_to_half_open now cb =
    if is_open cb.state && is_due cb.opened_at cb.reset_timeout now
    then transition_to_half_open cb
    else cb

abbrev pub allows : CircuitState → Bool
allows open_circuit = false
allows _ = true

unfoldable pub is_trading_allowed : ℕ → CircuitBreaker → CircuitBreaker × Bool
unfolding maybe_transition_to_half_open
is_trading_allowed now cb =
    let cb' = maybe_transition_to_half_open now cb in (cb', allows cb'.state)

unfoldable pub maybe_reset_window : ℕ → CircuitBreaker → CircuitBreaker
maybe_reset_window now cb =
    if leb cb.window_duration (now - cb.window_start)
    then record cb {
      window_start = now;
      fatal_error_count = 0;
      orders_submitted = 0;
      orders_rejected = 0;
    }
    else cb

unfoldable pub record_order_submitted : ℕ → CircuitBreaker → CircuitBreaker
unfolding maybe_reset_window
record_order_submitted now cb =
    let cb' = maybe_reset_window now cb in
    record cb' { orders_submitted = u32 (cb'.orders_submitted + 1) }

-- `rate > reject_rate_threshold`, where the rate of no orders is zero
abbrev pub exceeds_rate : CircuitBreaker → Bool
exceeds_rate cb =
    ltb (cb.reject_rate_threshold * cb.orders_submitted) (100 * cb.orders_rejected)
    && ltb 0 cb.orders_submitted

unfoldable pub check_reject_rate : ℕ → CircuitBreaker → CircuitBreaker
unfolding open_with
check_reject_rate now cb =
    if exceeds_rate cb
    then open_with (reject_rate_exceeded cb.orders_rejected cb.orders_submitted) now cb
    else cb

unfoldable pub record_success : ℕ → CircuitBreaker → CircuitBreaker
unfolding close
record_success now cb =
    let successes = u32 (cb.half_open_successes + 1) in
    let cb' = record cb { half_open_successes = successes } in
    if is_half_open cb.state
    then (if leb cb.half_open_success_required successes then close now cb' else cb')
    else cb

unfoldable pub record_fatal : ℕ → CircuitBreaker → CircuitBreaker
unfolding open_with check_reject_rate
record_fatal now cb =
    let count = u32 (cb.fatal_error_count + 1) in
    let cb' = record cb {
      orders_rejected = u32 (cb.orders_rejected + 1);
      fatal_error_count = count;
    } in
    if leb cb.fatal_threshold count
    then open_with (fatal_error_threshold count) now cb'
    else check_reject_rate now cb'

unfoldable pub record_order_result : Option ErrorType → ℕ → CircuitBreaker → CircuitBreaker
unfolding record_success record_fatal maybe_reset_window
record_order_result none now cb = record_success now (maybe_reset_window now cb)
record_order_result (some fatal) now cb = record_fatal now (maybe_reset_window now cb)
record_order_result (some retryable) now cb = maybe_reset_window now cb
record_order_result (some expected) now cb = maybe_reset_window now cb

unfoldable pub record_ws_disconnect : ℕ → CircuitBreaker → CircuitBreaker
unfolding open_with
record_ws_disconnect now cb = open_with web_socket_disconnect now cb

abbrev pub is_disconnect : Option OpenReason → Bool
is_disconnect (some web_socket_disconnect) = true
is_disconnect _ = false

unfoldable pub record_ws_reconnect : CircuitBreaker → CircuitBreaker
unfolding transition_to_half_open
record_ws_reconnect cb =
    if is_open cb.state && is_disconnect cb.open_reason then transition_to_half_open cb else cb

unfoldable pub record_reconciliation_failure : Key → ℕ → CircuitBreaker → CircuitBreaker
unfolding open_with
record_reconciliation_failure details now cb = open_with (reconciliation_failure details) now cb

unfoldable pub record_daily_loss_exceeded : ℕ → CircuitBreaker → CircuitBreaker
unfolding open_with
record_daily_loss_exceeded now cb = open_with daily_loss_exceeded now cb

unfoldable pub manual_open : ℕ → CircuitBreaker → CircuitBreaker
unfolding open_with
manual_open now cb = open_with manual_trigger now cb

unfoldable pub force_close : ℕ → CircuitBreaker → CircuitBreaker
unfolding close
force_close now cb = close now cb

unfoldable pub stats : CircuitBreaker → CircuitBreakerStats
stats cb = record {
  state = cb.state;
  fatal_error_count = cb.fatal_error_count;
  orders_submitted = cb.orders_submitted;
  orders_rejected = cb.orders_rejected;
  reject_rate = (cb.orders_rejected, cb.orders_submitted);
  open_reason = cb.open_reason;
}
