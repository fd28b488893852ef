-- ===== src/Orchestrator/Intents/Examples.antt =====
-- A paper session of a buy and a sell, and one live order, with the theorems at them. Texts of
-- numbers are numbers of cents.
use poly_bot.Prelude.{
  ℕ, ◌+◌, ◌≡◌, refl, true, false, Option, none, some, List, [], ◌∷◌, arith, on_some, leb,
  if◌then◌else◌, Bool-cases, inl, inr, ◌==◌,
}
use poly_bot.Decimal.{Decimal, dec, nought, ◌≤ℤ◌}
use poly_bot.Decimal.Exact.{exact_ops, exact_ops-IsExact, exact_ops-HasSigns}
use poly_bot.Decimal.Lots.{exact_ops-HasRates}
use poly_bot.Types.{Key, buy, sell}
use poly_bot.Ledger
use poly_bot.Ledger.{Ledger}
use poly_bot.State.OrderBook.{Books}
use poly_bot.Strategy.MarketPair.{MarketPair, MarketPairRegistry, yes_no, get_by_token}
use poly_bot.Strategy.Traits.{OrderIntent, new_intent, from_intent, is_grouped}
use poly_bot.Risk.CircuitBreaker.{closed, half_open, with_thresholds}
use poly_bot.Risk.RateLimiter.{limit_of, would_exceed, try_acquire, for_order_submission}
use poly_bot.Execution.Policy.{
  immediate, default_taker, taker_params, IntentRef, OrderParams, round_up_to_tick,
}
use poly_bot.Execution.Executor.{OrderExecutor, PostOrderResponse, posted, Attempt}
use poly_bot.Execution.Executor.Quantize.{quantize_size_for_usdc_precision}
use poly_bot.Orchestrator.Intents.{simulate_paper_fills, execute_intents}
use poly_bot.Orchestrator.Intents.Solvency.{HasFairFees, ReadsPrices, simulate_paper_fills-solvent}
use poly_bot.Orchestrator.Intents.Counting.{fill_counts_twice}

abbrev parse : Key → Option Decimal
parse k = some (dec k 2)

reads : ReadsPrices parse
reads k = on_some (omega arith)

abbrev pair : MarketPair
pair = record {
  condition_id = 7;
  yes_token_id = 1;
  no_token_id = 2;
  fee_rate_bps = 1000;
  is_neg_risk = false;
  description = 0;
  min_order_size = dec 1 0;
  tick_size = dec 1 2;
  outcome_type = yes_no;
  first_outcome_label = 0;
  second_outcome_label = 0;
  asset_symbol = none;
}

abbrev registry : MarketPairRegistry
registry = record { by_condition = (7, pair) ∷ []; by_token = (1, pair) ∷ [] }

fair : HasFairFees registry
unfolding get_by_token
fair token_id = elim (Bool-cases (1 == token_id)) [
  | inl e ↦ rw e (omega arith)
  | inr e ↦ rw e (omega arith)
]

abbrev books : Books
books =
    (
      1,
      record {
        token_id = 1;
        market = 7;
        bids = record { price = 45; size = 900 } ∷ [];
        asks = record { price = 50; size = 900 } ∷ [];
        last_update = none;
        hash = none;
      },
    )
    ∷ []

abbrev intents : List OrderIntent
unfolding new_intent
intents =
    new_intent 7 1 buy (dec 50 2) (dec 10 0) immediate 0 21 100
    ∷ new_intent 7 1 sell (dec 40 2) (dec 4 0) immediate 0 21 101
    ∷ []

abbrev drawn : ℕ → Key × Key
drawn n = (n + 100, n + 200)

simulate_paper_fills-solvent_example :
    nought
    ≤ℤ (simulate_paper_fills parse books registry 102 drawn
        (Ledger.new (dec 6 0))
        intents).cash.available
unfolding intents new_intent Ledger.new
simulate_paper_fills-solvent_example =
    simulate_paper_fills-solvent parse reads ⦃ex = exact_ops-IsExact⦄ ⦃signs = exact_ops-HasSigns⦄
      ⦃rates = exact_ops-HasRates⦄ books registry 102 drawn (Ledger.new (dec 6 0)) intents fair
      (omega arith, (omega arith, tt)) (omega arith)

abbrev executor : OrderExecutor
executor = record {
  circuit_breaker = record (with_thresholds 5 20 60 100) {
    state = half_open;
    opened_at = some 10;
    half_open_success_required = 2;
  };
  rate_limiter = for_order_submission;
}

abbrev policy : IntentRef → ℕ → OrderParams
policy = taker_params default_taker

abbrev unwind_name : Key → Key
unwind_name n = n + 1000

abbrev response : PostOrderResponse
response = record { success = true; order_id = 5; taking_amount = dec 10 0; error_msg = none }

abbrev order : OrderIntent
unfolding new_intent
order = new_intent 7 1 buy (dec 50 2) (dec 10 0) immediate 0 21 100

abbrev cut_off : ℕ → Attempt
cut_off n = record { answer = posted response; took = 5; pause = 0 }

fill_counts_twice_example :
    (execute_intents unwind_name policy executor
      (record { intent = order; answer = posted response } ∷ [])
      100
      101
      102
      1
      cut_off).circuit_breaker.state
    ≡ (if leb executor.circuit_breaker.half_open_success_required
          (executor.circuit_breaker.half_open_successes + 2)
        then closed
        else half_open)
unfolding try_acquire would_exceed limit_of for_order_submission with_thresholds from_intent
    taker_params round_up_to_tick quantize_size_for_usdc_precision is_grouped order
fill_counts_twice_example =
    fill_counts_twice unwind_name policy executor order response 100 101 102 1 cut_off refl
      (omega arith) (omega arith) refl refl refl (omega arith) (omega arith)
