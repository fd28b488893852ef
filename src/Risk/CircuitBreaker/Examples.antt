-- ===== src/Risk/CircuitBreaker/Examples.antt =====
-- The circuit breaker's theorems on concrete runs.
use poly_bot.Prelude.{ℕ, true, false, refl, ◌≡◌, none, some, List, [], ◌∷◌, arith}
use poly_bot.Types.{fatal}
use poly_bot.Risk.CircuitBreaker.{
  CircuitBreaker, half_open, new, with_thresholds, manual_open, is_trading_allowed,
  record_ws_disconnect, record_ws_reconnect, is_open, is_disconnect,
}
use poly_bot.Risk.CircuitBreaker.Invariant.{Event, run, IsConsistent, run-IsConsistent}
use poly_bot.Risk.CircuitBreaker.Traces.{IsHeld, stays_open, reconnect_overrides}

abbrev calls : List (Event × ℕ)
calls =
    (Event.submitted, 101)
    ∷ (Event.result (some fatal), 102)
    ∷ (Event.manual, 103)
    ∷ (Event.asked, 170)
    ∷ (Event.result none, 171)
    ∷ []

run-IsConsistent_example : IsConsistent (run (with_thresholds 5 20 60 100) calls)
run-IsConsistent_example = run-IsConsistent 5 20 60 100 calls (omega arith)

abbrev halted : CircuitBreaker
halted = manual_open 100 (new 90)

halted-IsHeld : IsHeld 100 60 halted
unfolding new manual_open
halted-IsHeld = ground arith

abbrev refused : List (Event × ℕ)
refused = (Event.result none, 120) ∷ (Event.ws_reconnect, 130) ∷ (Event.asked, 140) ∷ []

stays_open_example : (is_trading_allowed 159 (run halted refused)).1 ≡ false
stays_open_example = stays_open 100 60 halted refused 159 halted-IsHeld refl refl

abbrev testing : CircuitBreaker
testing = (is_trading_allowed 160 halted).0

testing_half : testing.state ≡ half_open
unfolding new manual_open is_trading_allowed
testing_half = refl

testing_needs : (testing.half_open_successes ≡ 0) × (testing.half_open_success_required ≡ 3)
unfolding new manual_open is_trading_allowed
testing_needs = (refl, refl)

abbrev fresh : CircuitBreaker
fresh = with_thresholds 3 20 60 100

fresh_counts :
    (fresh.window_start ≡ 100)
    × (fresh.window_duration ≡ 60)
    × (fresh.fatal_error_count ≡ 0)
    × (fresh.fatal_threshold ≡ 3)
unfolding with_thresholds
fresh_counts = (refl, refl, refl, refl)

abbrev offline : CircuitBreaker
offline = record_ws_disconnect 100 fresh

offline_open : (is_open offline.state ≡ true) × (is_disconnect offline.open_reason ≡ true)
unfolding with_thresholds record_ws_disconnect
offline_open = (refl, refl)

reconnect_overrides_example :
    (is_trading_allowed 105
      (record_ws_reconnect (run offline ((Event.manual, 101) ∷ (Event.daily_loss, 102) ∷ [])))).1
    ≡ true
reconnect_overrides_example =
    reconnect_overrides ((Event.manual, 101) ∷ (Event.daily_loss, 102) ∷ []) offline 105
      offline_open.0 offline_open.1 refl
