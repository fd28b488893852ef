-- ===== src/Orchestrator/Intents.antt =====
-- src/orchestrator/execution.rs: what becomes of the intents of the strategies, on paper or live.
-- `short_id` is the start of a market's id, `drawn n` are the ids of fill and order that are drawn
-- for the `n`-th intent. The task that executes live intents is spawned, so it is a function of its
-- own; it shares the circuit breaker with its executor.
pub mod Solvency
pub mod Counting
mod Examples
use poly_bot.Prelude.{
  ℕ, suc, ◌+◌, Bool, not, Option, none, some, List, [], ◌∷◌, map, length, unwrap_or, map_option,
  ◌==◌, u64, if◌then◌else◌,
}
use poly_bot.Decimal.{Decimal, dec, nought, le, DecimalOps, add, mul}
use poly_bot.Types.{Key, buy, sell, Side, expected, retryable}
use poly_bot.Ledger.{Ledger, process_fill}
use poly_bot.Ledger.Cash.{can_afford, withdraw}
use poly_bot.Ledger.Positions.{Fill}
use poly_bot.State.OrderBook.{Books, best_bid, best_ask}
use poly_bot.Strategy.MarketPair.{MarketPair, MarketPairRegistry, get_by_token}
use poly_bot.Strategy.Traits.{OrderIntent, no_text}
use poly_bot.Risk.CircuitBreaker.{CircuitBreaker, is_trading_allowed, record_order_result}
use poly_bot.Execution.Policy.{IntentRef, OrderParams}
use poly_bot.Execution.Executor.{
  ExecutionStatus, fully_filled, partial_fill, pending, rejected, cancelled, submission_failed,
  circuit_open, ExecutionResult, OrderExecutor, with_breaker, Leg, Attempt, first_grouped,
  execute_batch, execute_grouped,
}

-- src/config.rs
pub data OperatingMode : Type 0 where
  paper live : OperatingMode

-- the fields of `Bot` that the processing of intents reads or changes
pub record Bot : Type 0 where
  pub mode : OperatingMode
  pub circuit_breaker : CircuitBreaker
  pub ledger : Ledger
  pub order_book_state : Books
  pub market_registry : MarketPairRegistry
  pub has_executor : Bool
  pub total_intents : ℕ
  pub total_executions : ℕ

-- `filter(|d| !d.is_empty()).unwrap_or_else(...)`
abbrev pub described : Option Key → (fallback : Key) → Key
described none fallback = fallback
described (some d) fallback = if d == no_text then fallback else d

unfoldable pub enriched : MarketPairRegistry → (short_id : Key → Key) → OrderIntent → OrderIntent
enriched registry short_id x =
    if x.market_desc == no_text
    then record x {
      market_desc =
          described
            (map_option (λ (p : MarketPair). p.description) (get_by_token registry x.token_id))
            (short_id x.market_id);
    }
    else x

abbrev pub fee_rate_of : MarketPairRegistry → Key → ℕ
fee_rate_of registry token_id =
    unwrap_or (map_option (λ (p : MarketPair). p.fee_rate_bps) (get_by_token registry token_id)) 0

module _ (parse : Key → Option Decimal) where
  abbrev pub within_limit : Side → (limit : Decimal) → Option Decimal → Option Decimal
  within_limit side limit none = none
  within_limit buy limit (some ask) = if le ask limit then some ask else none
  within_limit sell limit (some bid) = if le limit bid then some bid else none

  abbrev pub counterside : Books → Side → Key → Option Decimal
  counterside books buy token_id = best_ask parse books token_id
  counterside books sell token_id = best_bid parse books token_id

  -- the best price of the other side, where the limit of the intent admits it
  unfoldable pub fill_price_of : Books → OrderIntent → Option Decimal
  fill_price_of books x = within_limit x.side x.price (counterside books x.side x.token_id)

abbrev pub paper_fill :
    (ids : Key × Key) → OrderIntent → (fill_price fee : Decimal) → (now : ℕ) → Fill
paper_fill (fill_id, order_id) x fill_price fee now = record {
  fill_id = fill_id;
  order_id = order_id;
  token_id = x.token_id;
  side = x.side;
  price = fill_price;
  size = x.size;
  fee = fee;
  timestamp = now;
  expected_price = some x.price;
  slippage_cost = nought;
}

module _ ⦃o : DecimalOps⦄ where
  abbrev pub paper_fee : MarketPairRegistry → OrderIntent → (fill_price : Decimal) → Decimal
  paper_fee registry x fill_price =
      mul (mul fill_price x.size) (dec (fee_rate_of registry x.token_id) 4)

  -- a buy that the cash does not cover is skipped, else its value is taken first
  abbrev pub prepared : Side → (notional fee : Decimal) → Ledger → Option Ledger
  prepared buy notional fee l =
      if can_afford l.cash (add notional fee)
      then some (record l { cash = (withdraw l.cash notional).0 })
      else none
  prepared sell notional fee l = some l

  abbrev pub filled_at :
      (ids : Key × Key)
      → OrderIntent
      → (fill_price fee : Decimal) → ℕ
      → Ledger
      → Option Ledger
      → Ledger
  filled_at ids x fill_price fee now l none = l
  filled_at ids x fill_price fee now l (some l') =
      process_fill l' (paper_fill ids x fill_price fee now) now

  abbrev pub simulate_at :
      MarketPairRegistry → (ids : Key × Key) → OrderIntent → ℕ → Ledger → Option Decimal → Ledger
  simulate_at registry ids x now l none = l
  simulate_at registry ids x now l (some fill_price) =
      let fee = paper_fee registry x fill_price in
      filled_at ids x fill_price fee now l (prepared x.side (mul fill_price x.size) fee l)

  module _ (parse : Key → Option Decimal) (books : Books) (registry : MarketPairRegistry)
      (now : ℕ) where
    unfoldable pub simulate_paper_fills :
        (drawn : ℕ → Key × Key) → Ledger → List OrderIntent → Ledger
    simulate_paper_fills drawn l [] = l
    simulate_paper_fills drawn l (x ∷ xs) =
        simulate_paper_fills (λ n. drawn (suc n))
          (simulate_at registry (drawn 0) x now l (fill_price_of parse books x)) xs

  -- What `process_intents` leaves, with the intents that a spawned task is to execute.
  unfoldable pub process_intents :
      (parse : Key → Option Decimal)
      → (short_id : Key → Key) → (drawn : ℕ → Key × Key) → Bot
      → List OrderIntent
      → ℕ
      → Bot × List OrderIntent
  process_intents parse short_id drawn b xs now =
      let intents = map (enriched b.market_registry short_id) xs in
      let (cb, allowed) = is_trading_allowed now b.circuit_breaker in
      let b' = record b {
        circuit_breaker = cb;
        total_intents = u64 (b.total_intents + length xs);
      } in
      if not allowed then (b', []) else elim b.mode [
        | paper ↦ (
          record b' {
            ledger =
                simulate_paper_fills parse b.order_book_state b.market_registry now drawn b.ledger
                  intents;
          },
          [],
        )
        | live ↦ if not b.has_executor then (b', []) else (
          record b' { total_executions = u64 (b.total_executions + length intents) },
          intents,
        )
      ]

unfoldable pub handle_execution_result : ExecutionStatus → ℕ → CircuitBreaker → CircuitBreaker
handle_execution_result fully_filled now cb = record_order_result none now cb
handle_execution_result partial_fill now cb = record_order_result none now cb
handle_execution_result pending now cb = cb
handle_execution_result rejected now cb = record_order_result (some expected) now cb
handle_execution_result cancelled now cb = cb
handle_execution_result submission_failed now cb = record_order_result (some retryable) now cb
handle_execution_result circuit_open now cb = cb

unfoldable pub handle_all : List ExecutionResult → ℕ → CircuitBreaker → CircuitBreaker
handle_all [] now cb = cb
handle_all (r ∷ rs) now cb = handle_all rs now (handle_execution_result r.status now cb)

module _ ⦃o : DecimalOps⦄ (unwind_name : Key → Key)
    (to_order_params : IntentRef → ℕ → OrderParams) where
  abbrev pub handled : OrderExecutor × List ExecutionResult → ℕ → OrderExecutor
  handled (e, results) now = with_breaker e (handle_all results now e.circuit_breaker)

  -- The task: the orders go out at `now`, are answered at `later`, and handled at `last`.
  unfoldable pub execute_intents :
      OrderExecutor → List Leg → (now later last budget : ℕ) → (ℕ → Attempt) → OrderExecutor
  execute_intents e legs now later last budget attempt =
      if first_grouped unwind_name to_order_params legs
      then handled (execute_grouped unwind_name to_order_params e legs now later budget attempt)
          last
      else handled (execute_batch to_order_params e legs now later) last
