-- ===== src/Execution/Executor/Examples.antt =====
-- The executor's theorems on concrete runs.
use poly_bot.Prelude.{ℕ, ◌+◌, ◌≡◌, refl, true, none, List, [], ◌∷◌, All, arith}
use poly_bot.Decimal.{Decimal, dec, ◌≤ℤ◌, ◌<ℤ◌, add, mul}
use poly_bot.Decimal.Exact.{exact_ops, exact_ops-IsExact}
use poly_bot.Decimal.Lots.{exact_ops-HasLots}
use poly_bot.Prelude.Int.{◌+ℤ◌}
use poly_bot.Types.{Key, buy}
use poly_bot.Risk.CircuitBreaker.{is_trading_allowed, is_open, with_thresholds}
use poly_bot.Risk.RateLimiter.{limit_of, would_exceed, try_acquire, for_order_submission}
use poly_bot.Strategy.Traits.{from_intent, OrderIntent, new_intent, with_group}
use poly_bot.Execution.Policy.{
  round_up_to_tick, immediate, default_taker, taker_params, IntentRef, OrderParams,
}
use poly_bot.Execution.Executor.{
  status_of, process_response, finish_execute, OrderExecutor, ExecutionResult, PostOrderResponse,
  posted, Leg, Attempt, unwind_one, execute, execute_grouped, unwind_all, unwind_intent, order_for,
  fully_filled, partial_fill, min_filled, begin_execute,
}
use poly_bot.Execution.Executor.Quantize.{quantize_size_for_usdc_precision, lot_of}
use poly_bot.Execution.Executor.Sizes.{quantize_bounds, quantize_minimum}
use poly_bot.Execution.Executor.Status.{IsOutcome, execute_lem}
use poly_bot.Execution.Executor.Groups.{
  unwinds_balance, AreClose, held_after, unwind_lot, unwind_oversells,
}
use poly_bot.Ledger.Positions.{signed_by}
use poly_bot.Execution.Executor.Unwinding.{unfilled_ends}
use poly_bot.Execution.Executor.Submissions.{IsUncounted, execute_grouped-IsUncounted}

-- The runs of the source's own test.
quantize_runs :
    (quantize_size_for_usdc_precision (dec 51 2) (dec 555 2) ≡ dec 5 0)
    × (quantize_size_for_usdc_precision (dec 51 2) (dec 199 2) ≡ dec 2 0)
    × (quantize_size_for_usdc_precision (dec 50 2) (dec 555 2) ≡ dec 554 2)
    × (quantize_size_for_usdc_precision (dec 58 2) (dec 555 2) ≡ dec 55 1)
    × (quantize_size_for_usdc_precision (dec 90 2) (dec 112 2) ≡ dec 12 1)
unfolding quantize_size_for_usdc_precision ◌+ℤ◌
quantize_runs = (refl, refl, refl, refl, refl)

quantize_bounds_example :
    (dec 555 2 <ℤ add (quantize_size_for_usdc_precision (dec 58 2) (dec 555 2)) (lot_of (dec 58 2)))
    × (quantize_size_for_usdc_precision (dec 58 2) (dec 555 2)
        ≤ℤ add (dec 555 2) (lot_of (dec 58 2)))
quantize_bounds_example =
    quantize_bounds ⦃ex = exact_ops-IsExact⦄ ⦃lots = exact_ops-HasLots⦄ (dec 58 2) (dec 555 2)
      (omega arith)

quantize_minimum_example :
    dec 1 0 ≤ℤ mul (dec 90 2) (quantize_size_for_usdc_precision (dec 90 2) (dec 112 2))
quantize_minimum_example =
    quantize_minimum ⦃ex = exact_ops-IsExact⦄ ⦃lots = exact_ops-HasLots⦄ (dec 90 2) (dec 112 2)
      (omega arith) (omega arith) (omega arith)

abbrev idle : OrderExecutor
idle = record { circuit_breaker = with_thresholds 5 20 60 100; rate_limiter = for_order_submission }

abbrev policy : IntentRef → ℕ → OrderParams
policy = taker_params default_taker

abbrev unwind_name : Key → Key
unwind_name n = n + 1000

abbrev intent_on : Key → OrderIntent
unfolding new_intent with_group
intent_on token = with_group (new_intent 7 token buy (dec 50 2) (dec 10 0) immediate 0 21 100) 99

abbrev response : Decimal → PostOrderResponse
response size = record { success = true; order_id = 5; taking_amount = size; error_msg = none }

abbrev legs : List Leg
legs =
    record { intent = intent_on 1; answer = posted (response (dec 10 0)) }
    ∷ record { intent = intent_on 2; answer = posted (response (dec 4 0)) }
    ∷ []

abbrev cut_off : ℕ → Attempt
cut_off n = record { answer = posted (response (dec 6 0)); took = 5; pause = 0 }

execute_runs :
    ((execute policy idle (intent_on 1) 100 (posted (response (dec 4 0))) 101).1.status
      ≡ partial_fill)
    × ((execute policy idle (intent_on 1) 100 (posted (response (dec 12 0))) 101).1.status
        ≡ fully_filled)
unfolding execute finish_execute begin_execute is_trading_allowed with_thresholds try_acquire
    would_exceed limit_of for_order_submission process_response status_of
    quantize_size_for_usdc_precision taker_params round_up_to_tick from_intent intent_on
execute_runs = (refl, refl)

execute_lem_example :
    IsOutcome
      (is_trading_allowed 100 idle.circuit_breaker).1
      (try_acquire idle.rate_limiter 100).1
      (order_for policy (intent_on 1) 100)
      (posted (response (dec 4 0)))
      (execute policy idle (intent_on 1) 100 (posted (response (dec 4 0))) 101).1
execute_lem_example = execute_lem policy idle (intent_on 1) 100 (posted (response (dec 4 0))) 101

execute_grouped-IsUncounted_example :
    IsUncounted (execute_grouped unwind_name policy idle legs 100 101 1 cut_off).0.circuit_breaker
unfolding with_thresholds
execute_grouped-IsUncounted_example =
    execute_grouped-IsUncounted policy unwind_name idle legs 100 101 1 cut_off
      (record { no_orders = refl; other_reason = refl })

abbrev results : List ExecutionResult
unfolding execute
results =
    (execute policy idle (intent_on 1) 100 (posted (response (dec 10 0))) 101).1
    ∷ (execute policy idle (intent_on 2) 100 (posted (response (dec 4 0))) 101).1
    ∷ []

unwinds_balance_example :
    All
      (λ r.
        AreClose
          (held_after unwind_name default_taker (min_filled results) 101 102 (intent_on 1) r)
          (signed_by (intent_on 1).side (min_filled results))
          (unwind_lot unwind_name (intent_on 1)))
      results
unwinds_balance_example =
    unwinds_balance unwind_name ⦃ex = exact_ops-IsExact⦄ ⦃lots = exact_ops-HasLots⦄ default_taker
      results 101 102 (intent_on 1)

unwind_oversells_example :
    dec 6 0 <ℤ (order_for policy (unwind_intent unwind_name (intent_on 1) (dec 6 0) 101) 102).size
unfolding intent_on
unwind_oversells_example =
    unwind_oversells unwind_name ⦃ex = exact_ops-IsExact⦄ ⦃lots = exact_ops-HasLots⦄ default_taker
      (intent_on 1) (dec 6 0) 101 102 refl (omega arith) (omega arith)

unfilled_ends_example :
    let ended = (unwind_one unwind_name policy 103 101 (cut_off 0) idle (intent_on 1)).0 in
    (is_open ended.circuit_breaker.state ≡ true)
    × (unwind_all unwind_name policy 103 101 cut_off idle (intent_on 1 ∷ intent_on 2 ∷ []) ≡ ended)
unfolding with_thresholds begin_execute is_trading_allowed try_acquire would_exceed limit_of
    for_order_submission
unfilled_ends_example =
    unfilled_ends unwind_name policy 103 101 cut_off idle (intent_on 1) (intent_on 2 ∷ []) refl refl
      refl refl
