-- ===== src/Execution/Executor.antt =====
-- src/execution/executor.rs: `OrderExecutor`. The policy is a parameter, and what the exchange client
-- answers is an argument. Orders of one batch are sent before an answer is awaited; the answers then
-- come in the order of the legs. Times are numbers of one clock, and `unwind_name` puts the prefix
-- `unwind:` before a name. Logging, latencies and alerts are left out.
pub mod Quantize
pub mod Lots
pub mod Sizes
pub mod Status
pub mod Groups
pub mod Unwinding
pub mod Calls
pub mod Submissions
mod Examples
use poly_bot.Prelude.{
  ℕ, suc, ◌+◌, leb, Bool, true, false, not, ◌||◌, Option, none, some, List, [], ◌∷◌, foldl, length,
  unwrap_or, if◌then◌else◌,
}
use poly_bot.Decimal.{Decimal, nought, dec, lt, le, min, DecimalOps, sub}
use poly_bot.Types.{Key, Side, buy, sell, OrderType, fak, gtc, fok, retryable, from_error_msg}
use poly_bot.Risk.CircuitBreaker.{
  CircuitBreaker, is_trading_allowed, record_order_result, manual_open,
}
use poly_bot.Risk.RateLimiter.{RateLimiter, try_acquire}
use poly_bot.State.OrderBook.{decimal_max}
use poly_bot.Strategy.Traits.{OrderIntent, new_intent, from_intent, is_grouped}
use poly_bot.Execution.Policy.{IntentRef, OrderParams, immediate}
use poly_bot.Execution.Executor.Quantize.{quantize_size_for_usdc_precision}

pub data ExecutionStatus : Type 0 where
  fully_filled partial_fill pending rejected cancelled submission_failed circuit_open :
      ExecutionStatus

pub record ExecutionResult : Type 0 where
  pub intent_token_id : Key
  pub order_id : Option Key
  pub filled : Bool
  pub filled_size : Decimal
  pub requested_size : Decimal
  pub status : ExecutionStatus
  pub error : Option Key

-- The fields of the client's response that the code reads.
pub record PostOrderResponse : Type 0 where
  pub success : Bool
  pub order_id : Key
  pub taking_amount : Decimal
  pub error_msg : Option Key

-- What comes of building, signing and posting an order: a response, or an error with its text.
pub data Answer : Type 0 where
  posted : PostOrderResponse → Answer
  unsent : Key → Answer

pub record OrderExecutor : Type 0 where
  pub circuit_breaker : CircuitBreaker
  pub rate_limiter : RateLimiter

abbrev pub no_message : Key
no_message = 0

abbrev pub circuit_breaker_open : Key
circuit_breaker_open = 11

abbrev pub rate_limit_exceeded : Key
rate_limit_exceeded = 12

abbrev pub unfilled : Key → Decimal → ExecutionStatus → Key → ExecutionResult
unfilled token_id size status error = record {
  intent_token_id = token_id;
  order_id = none;
  filled = false;
  filled_size = nought;
  requested_size = size;
  status = status;
  error = some error;
}

abbrev pub with_breaker : OrderExecutor → CircuitBreaker → OrderExecutor
with_breaker e cb = record e { circuit_breaker = cb }

abbrev pub is_fok : OrderType → Bool
is_fok fok = true
is_fok _ = false

unfoldable pub status_of : OrderType → (filled_size size : Decimal) → ExecutionStatus
status_of order_type filled_size size =
    if le size filled_size
    then fully_filled
    else if lt nought filled_size
    then partial_fill
    else if is_fok order_type
    then cancelled
    else pending

abbrev pub accepted : OrderParams → PostOrderResponse → ExecutionResult
accepted params response =
    let filled_size = min response.taking_amount params.size in
    record {
      intent_token_id = params.token_id;
      order_id = some response.order_id;
      filled = lt nought filled_size;
      filled_size = filled_size;
      requested_size = params.size;
      status = status_of params.order_type filled_size params.size;
      error = none;
    }

unfoldable pub process_response :
    OrderExecutor → OrderParams → PostOrderResponse → ℕ → OrderExecutor × ExecutionResult
process_response e params response now =
    let error_msg = unwrap_or response.error_msg no_message in
    if response.success
    then (with_breaker e (record_order_result none now e.circuit_breaker), accepted params response)
    else (
      with_breaker e (record_order_result (some (from_error_msg error_msg)) now e.circuit_breaker),
      unfilled params.token_id params.size rejected error_msg,
    )

-- Where `execute` stands when it first waits: it has returned, or an order is on its way.
pub data Begun : Type 0 where
  refused : ExecutionResult → Begun
  sending : OrderParams → Begun

abbrev pub is_fully_filled : ExecutionStatus → Bool
is_fully_filled fully_filled = true
is_fully_filled _ = false

pub record Leg : Type 0 where
  pub intent : OrderIntent
  pub answer : Answer

-- What the exchange would answer to one unwind, the time that it would take, and the time that then
-- passes before the turn of the next.
pub record Attempt : Type 0 where
  pub answer : Answer
  pub took : ℕ
  pub pause : ℕ

module _ ⦃o : DecimalOps⦄ (to_order_params : IntentRef → ℕ → OrderParams) where
  -- the order that an intent becomes, its size quantized
  abbrev pub order_for : OrderIntent → ℕ → OrderParams
  order_for intent now =
      let params = to_order_params (from_intent intent) now in
      record params { size = quantize_size_for_usdc_precision params.price params.size }

  unfoldable pub begin_execute : OrderExecutor → OrderIntent → ℕ → OrderExecutor × Begun
  begin_execute e intent now =
      let (cb, allowed) = is_trading_allowed now e.circuit_breaker in
      let (limiter, acquired) = try_acquire e.rate_limiter now in
      let e' = with_breaker e cb in
      if not allowed
      then (e', refused (unfilled intent.token_id intent.size circuit_open circuit_breaker_open))
      else if not acquired
      then (
        record e' { rate_limiter = limiter },
        refused (unfilled intent.token_id intent.size submission_failed rate_limit_exceeded),
      )
      else (record e' { rate_limiter = limiter }, sending (order_for intent now))

  abbrev pub answer_to :
      OrderExecutor → OrderIntent → OrderParams → Answer → ℕ → OrderExecutor × ExecutionResult
  answer_to e intent params (posted response) now = process_response e params response now
  answer_to e intent params (unsent error) now = (
    with_breaker e (record_order_result (some retryable) now e.circuit_breaker),
    unfilled intent.token_id intent.size submission_failed error,
  )

  unfoldable pub finish_execute :
      OrderExecutor → OrderIntent → Begun → Answer → ℕ → OrderExecutor × ExecutionResult
  finish_execute e intent (refused result) answer now = (e, result)
  finish_execute e intent (sending params) answer now = answer_to e intent params answer now

  unfoldable pub execute :
      OrderExecutor
      → OrderIntent
      → (now : ℕ) → Answer
      → (later : ℕ) → OrderExecutor × ExecutionResult
  execute e intent now answer later =
      let (e', begun) = begin_execute e intent now in finish_execute e' intent begun answer later

  unfoldable pub begin_all : OrderExecutor → List Leg → ℕ → OrderExecutor × List (Leg × Begun)
  begin_all e [] now = (e, [])
  begin_all e (leg ∷ legs) now =
      let (e', begun) = begin_execute e leg.intent now in
      let (e'', rest) = begin_all e' legs now in (e'', (leg, begun) ∷ rest)

  unfoldable pub finish_all :
      OrderExecutor → List (Leg × Begun) → ℕ → OrderExecutor × List ExecutionResult
  finish_all e [] now = (e, [])
  finish_all e ((leg, begun) ∷ legs) now =
      let (e', result) = finish_execute e leg.intent begun leg.answer now in
      let (e'', rest) = finish_all e' legs now in (e'', result ∷ rest)

  unfoldable pub execute_batch :
      OrderExecutor → List Leg → (now later : ℕ) → OrderExecutor × List ExecutionResult
  execute_batch e legs now later =
      let (e', begun) = begin_all e legs now in finish_all e' begun later

unfoldable pub min_filled : List ExecutionResult → Decimal
min_filled = foldl (λ (m : Decimal) (r : ExecutionResult). min m r.filled_size) decimal_max

abbrev pub opposite : Side → Side
opposite buy = sell
opposite sell = buy

abbrev pub limit_price : Side → Decimal
limit_price sell = dec 1 2
limit_price buy = dec 99 2

abbrev pub unwind_reason : Key
unwind_reason = 13

module _ ⦃o : DecimalOps⦄ (unwind_name : Key → Key) where
  unfoldable pub unwind_intent : OrderIntent → (excess : Decimal) → (now : ℕ) → OrderIntent
  unfolding new_intent
  unwind_intent x excess now =
      new_intent x.market_id x.token_id (opposite x.side) (limit_price (opposite x.side)) excess
        immediate unwind_reason (unwind_name x.strategy_name) now

  -- the intent that unwinds a leg, when more of it is filled than the minimum
  unfoldable pub unwind_of :
      (least : Decimal) → (now : ℕ) → ExecutionResult → OrderIntent → Option OrderIntent
  unwind_of least now result original =
      let excess = sub result.filled_size least in
      if le excess nought then none else some (unwind_intent original excess now)

  abbrev pub listed : Option OrderIntent → List OrderIntent → List OrderIntent
  listed none xs = xs
  listed (some x) xs = x ∷ xs

  -- `zip` and `filter_map`
  unfoldable pub unwind_intents :
      (least : Decimal) → (now : ℕ) → List ExecutionResult → List Leg → List OrderIntent
  unwind_intents least now (result ∷ results) (leg ∷ legs) =
      listed (unwind_of least now result leg.intent) (unwind_intents least now results legs)
  unwind_intents least now _ _ = []

  module _ (to_order_params : IntentRef → ℕ → OrderParams) where
    abbrev pub tripped : OrderExecutor → ℕ → OrderExecutor
    tripped e now = with_breaker e (manual_open now e.circuit_breaker)

    abbrev pub after_unwind : OrderExecutor × ExecutionResult → ℕ → OrderExecutor
    after_unwind (e, result) now = if is_fully_filled result.status then e else tripped e now

    -- The end of an unwind begun at `now`, with its time: one that is refused ends at once, and one
    -- that is sent is cut off at the deadline if it is not answered by then.
    unfoldable pub unwind_begun :
        (deadline now : ℕ) → Attempt → OrderExecutor → OrderIntent → Begun → OrderExecutor × ℕ
    unwind_begun deadline now a e x (refused result) = (after_unwind (e, result) now, now)
    unwind_begun deadline now a e x (sending params) =
        let later = now + a.took in
        if leb later deadline
        then (after_unwind (answer_to to_order_params e x params a.answer later) later, later)
        else (tripped e deadline, deadline)

    -- one unwind whose turn comes in time
    unfoldable pub unwind_one :
        (deadline now : ℕ) → Attempt → OrderExecutor → OrderIntent → OrderExecutor × ℕ
    unwind_one deadline now a e x =
        let (e', begun) = begin_execute to_order_params e x now in
        unwind_begun deadline now a e' x begun

    -- The loop over the unwinds under the deadline that they share; `attempt n` is the exchange's
    -- answer to the `n`-th.
    unfoldable pub unwind_all :
        (deadline now : ℕ) → (ℕ → Attempt) → OrderExecutor → List OrderIntent → OrderExecutor
    unwind_all deadline now attempt e [] = e
    unwind_all deadline now attempt e (x ∷ xs) =
        let (e', later) = unwind_one deadline now (attempt 0) e x in
        let rest = unwind_all deadline (later + (attempt 0).pause) (λ n. attempt (suc n)) e' xs in
        if leb deadline now then e else rest

    abbrev pub first_grouped : List Leg → Bool
    first_grouped [] = false
    first_grouped (leg ∷ legs) = is_grouped leg.intent

    -- `budget` stands for PARTIAL_FILL_UNWIND_MS, in the unit of the clock; UNWIND_SETTLE_DELAY_MS
    -- is zero.
    unfoldable pub execute_grouped :
        OrderExecutor
        → List Leg
        → (now later budget : ℕ) → (ℕ → Attempt)
        → OrderExecutor × List ExecutionResult
    execute_grouped e legs now later budget attempt =
        let (e', results) = execute_batch to_order_params e legs now later in
        if not (first_grouped legs) then (e', results) else (
          unwind_all (later + budget) later attempt e'
              (unwind_intents (min_filled results) later results legs),
          results,
        )

-- the bulk cancel, by the ids that the exchange reports as cancelled, if it answers
unfoldable pub cancel_all_orders : Option (List Key) → ℕ
cancel_all_orders none = 0
cancel_all_orders (some canceled) = length canceled
