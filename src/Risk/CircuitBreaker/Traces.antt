-- ===== src/Risk/CircuitBreaker/Traces.antt =====
-- How long the circuit breaker stays open, and what it forgets meanwhile.
use poly_bot.Prelude.{
  ap, ℕ, ◌-◌, ◌≡◌, refl, ◌∙◌, Bool, true, false, not, ◌&&◌, none, some, List, [], ◌∷◌, arith, ltb,
}
use poly_bot.Types.{retryable, fatal, expected}
use poly_bot.Risk.CircuitBreaker.{
  CircuitBreaker, is_trading_allowed, is_open, is_disconnect, reset_counters,
  record_order_submitted, record_order_result, record_ws_disconnect, record_ws_reconnect,
  record_reconciliation_failure, record_daily_loss_exceeded, manual_open, maybe_reset_window,
  record_success, record_fatal,
}
use poly_bot.Risk.CircuitBreaker.Invariant.{Event, step, run}

abbrev pub forces_closed : Event → Bool
forces_closed Event.forced_closed = true
forces_closed _ = false

-- No call forces the circuit closed, and all come before the timeout.
abbrev pub is_quiet : (opened_at reset_timeout : ℕ) → List (Event × ℕ) → Bool
is_quiet t d [] = true
is_quiet t d ((e, now) ∷ es) = not (forces_closed e) && ltb (now - t) d && is_quiet t d es

-- Open since `t`, for another reason than a lost connection.
pub record IsHeld (t d : ℕ) (cb : CircuitBreaker) : Type 0 where
  pub is_held_open : is_open cb.state ≡ true
  pub held_since : cb.opened_at ≡ some t
  pub held_timeout : cb.reset_timeout ≡ d
  pub not_disconnect : is_disconnect cb.open_reason ≡ false

maybe_reset_window-IsHeld :
    (t d : ℕ) (cb : CircuitBreaker) (now : ℕ)
    → IsHeld t d cb
    → IsHeld t d (maybe_reset_window now cb)
unfolding maybe_reset_window
maybe_reset_window-IsHeld t d cb now h = ground arith

record_success-IsHeld :
    (t d : ℕ) (cb : CircuitBreaker) (now : ℕ) → IsHeld t d cb → IsHeld t d (record_success now cb)
unfolding record_success
record_success-IsHeld t d cb now h = ground arith

record_fatal-IsHeld :
    (t d : ℕ) (cb : CircuitBreaker) (now : ℕ) → IsHeld t d cb → IsHeld t d (record_fatal now cb)
unfolding record_fatal
record_fatal-IsHeld t d cb now h = ground (arith, h)

step-IsHeld :
    (t d : ℕ) (cb : CircuitBreaker) (e : Event) (now : ℕ)
    → IsHeld t d cb
    → forces_closed e ≡ false
    → ltb (now - t) d ≡ true
    → IsHeld t d (step cb e now)
unfolding step reset_counters
step-IsHeld t d cb Event.submitted now h f q = unfold record_order_submitted in ground arith
step-IsHeld t d cb Event.ws_disconnect now h f q = unfold record_ws_disconnect in ground arith
step-IsHeld t d cb Event.ws_reconnect now h f q = unfold record_ws_reconnect in ground arith
step-IsHeld t d cb Event.daily_loss now h f q = unfold record_daily_loss_exceeded in ground arith
step-IsHeld t d cb Event.manual now h f q = unfold manual_open in ground arith
step-IsHeld t d cb Event.forced_closed now h f q = ground arith
step-IsHeld t d cb Event.counters_reset now h f q = ground arith
step-IsHeld t d cb Event.asked now h f q = unfold is_trading_allowed in ground arith
step-IsHeld t d cb (Event.result none) now h f q =
    unfold record_order_result in
    record_success-IsHeld t d _ now (maybe_reset_window-IsHeld t d cb now h)
step-IsHeld t d cb (Event.result (some fatal)) now h f q =
    unfold record_order_result in
    record_fatal-IsHeld t d _ now (maybe_reset_window-IsHeld t d cb now h)
step-IsHeld t d cb (Event.result (some retryable)) now h f q =
    unfold record_order_result in maybe_reset_window-IsHeld t d cb now h
step-IsHeld t d cb (Event.result (some expected)) now h f q =
    unfold record_order_result in maybe_reset_window-IsHeld t d cb now h
step-IsHeld t d cb (Event.reconciliation_failed k) now h f q =
    unfold record_reconciliation_failure in ground arith

quiet_head :
    (t d : ℕ) (e : Event) (now : ℕ) (es : List (Event × ℕ))
    → is_quiet t d ((e, now) ∷ es) ≡ true
    → (forces_closed e ≡ false) × (ltb (now - t) d ≡ true) × (is_quiet t d es ≡ true)
quiet_head t d e now es h = ground arith

run-IsHeld :
    (t d : ℕ) (es : List (Event × ℕ)) (cb : CircuitBreaker)
    → IsHeld t d cb
    → is_quiet t d es ≡ true
    → IsHeld t d (run cb es)
unfolding run
run-IsHeld t d [] cb h q = h
run-IsHeld t d ((e, now) ∷ es) cb h q =
    let (f, b, q') = quiet_head t d e now es q in
    run-IsHeld t d es (step cb e now) (step-IsHeld t d cb e now h f b) q'

held_refuses :
    (t d : ℕ) (cb : CircuitBreaker) (now : ℕ)
    → IsHeld t d cb
    → ltb (now - t) d ≡ true
    → (is_trading_allowed now cb).1 ≡ false
unfolding is_trading_allowed
held_refuses t d cb now h q = ground arith

-- A circuit that is open for another reason than a lost connection refuses trading until its
-- timeout is over, whatever else is called, save for a forced closing.
pub stays_open :
    (t d : ℕ) (cb : CircuitBreaker) (es : List (Event × ℕ)) (now : ℕ)
    → IsHeld t d cb
    → is_quiet t d es ≡ true
    → ltb (now - t) d ≡ true
    → (is_trading_allowed now (run cb es)).1 ≡ false
stays_open t d cb es now h q b = held_refuses t d _ now (run-IsHeld t d es cb h q) b

abbrev pub opens : Event → Bool
opens Event.ws_disconnect = true
opens Event.daily_loss = true
opens Event.manual = true
opens (Event.reconciliation_failed _) = true
opens _ = false

abbrev pub all_open : List (Event × ℕ) → Bool
all_open [] = true
all_open ((e, now) ∷ es) = opens e && all_open es

opens_keeps :
    (cb : CircuitBreaker) (e : Event) (now : ℕ)
    → is_open cb.state ≡ true
    → opens e ≡ true
    → step cb e now ≡ cb
unfolding step
opens_keeps cb Event.ws_disconnect now h k = unfold record_ws_disconnect in ground arith
opens_keeps cb Event.daily_loss now h k = unfold record_daily_loss_exceeded in ground arith
opens_keeps cb Event.manual now h k = unfold manual_open in ground arith
opens_keeps cb (Event.reconciliation_failed d) now h k =
    unfold record_reconciliation_failure in ground arith
opens_keeps cb Event.submitted now h k = cc
opens_keeps cb Event.ws_reconnect now h k = cc
opens_keeps cb Event.forced_closed now h k = cc
opens_keeps cb Event.counters_reset now h k = cc
opens_keeps cb Event.asked now h k = cc
opens_keeps cb (Event.result e) now h k = cc

openings_lost :
    (es : List (Event × ℕ)) (cb : CircuitBreaker)
    → is_open cb.state ≡ true
    → all_open es ≡ true
    → run cb es ≡ cb
unfolding run
openings_lost [] cb h k = refl
openings_lost ((e, now) ∷ es) cb h k =
    ap (λ c. run c es) (opens_keeps cb e now h (ground arith))
    ∙ openings_lost es cb h (ground arith)

reconnect_allows :
    (cb : CircuitBreaker) (now : ℕ)
    → is_open cb.state ≡ true
    → is_disconnect cb.open_reason ≡ true
    → (is_trading_allowed now (record_ws_reconnect cb)).1 ≡ true
unfolding is_trading_allowed record_ws_reconnect
reconnect_allows cb now h k = ground arith

-- In a circuit that a lost connection has opened, all further reasons to open it are lost: the
-- reconnection allows trading after any manual openings, daily losses and failed reconciliations.
pub reconnect_overrides :
    (es : List (Event × ℕ)) (cb : CircuitBreaker) (now : ℕ)
    → is_open cb.state ≡ true
    → is_disconnect cb.open_reason ≡ true
    → all_open es ≡ true
    → (is_trading_allowed now (record_ws_reconnect (run cb es))).1 ≡ true
reconnect_overrides es cb now h k a =
    ap (λ c. (is_trading_allowed now (record_ws_reconnect c)).1) (openings_lost es cb h a)
    ∙ reconnect_allows cb now h k
