-- ===== src/Execution/Executor/Status.antt =====
-- What the result of an execution says of the exchange's answer.
use poly_bot.Prelude.{
  ℕ, ◌≡◌, refl, Bool, true, false, not, ◌&&◌, none, some, arith, Bool-cases, inl, inr,
}
use poly_bot.Decimal.{Decimal, nought, lt, le, min, DecimalOps}
use poly_bot.Types.{OrderType}
use poly_bot.Risk.CircuitBreaker.{is_trading_allowed}
use poly_bot.Risk.RateLimiter.{try_acquire}
use poly_bot.Strategy.Traits.{OrderIntent}
use poly_bot.Execution.Policy.{IntentRef, OrderParams}
use poly_bot.Execution.Executor.{
  ExecutionStatus, partial_fill, pending, rejected, cancelled, submission_failed, circuit_open,
  ExecutionResult, PostOrderResponse, Answer, posted, unsent, OrderExecutor, status_of,
  process_response, begin_execute, answer_to, finish_execute, execute, is_fok, order_for,
  is_fully_filled,
}

abbrev pub is_partial : ExecutionStatus → Bool
is_partial partial_fill = true
is_partial _ = false

abbrev pub is_cancelled : ExecutionStatus → Bool
is_cancelled cancelled = true
is_cancelled _ = false

abbrev pub is_pending : ExecutionStatus → Bool
is_pending pending = true
is_pending _ = false

-- The status of an accepted order, by what of it is taken.
pub record HasStatus (order_type : OrderType) (taking size : Decimal) (s : ExecutionStatus)
    : Type 0 where
  pub when_full : is_fully_filled s ≡ le size taking
  pub when_partial : is_partial s ≡ lt nought (min taking size) && lt taking size
  pub when_cancelled :
      is_cancelled s ≡ is_fok order_type && not (lt nought (min taking size)) && lt taking size
  pub when_pending :
      is_pending s ≡ not (is_fok order_type) && not (lt nought (min taking size)) && lt taking size

-- No order is known, and nothing is filled.
abbrev pub IsFailure : ExecutionStatus → ExecutionResult → Type 0
IsFailure s r = (r.status ≡ s) × (r.filled_size ≡ nought) × (r.filled ≡ false) × (r.order_id ≡ none)

-- The order has its id, and what is filled is what the exchange takes, at most its size.
pub record IsAccepted (p : OrderParams) (response : PostOrderResponse) (r : ExecutionResult)
    : Type 0 where
  pub has_id : r.order_id ≡ some response.order_id
  pub has_size : r.filled_size ≡ min response.taking_amount p.size
  pub has_fill : r.filled ≡ lt nought (min response.taking_amount p.size)
  pub has_status : HasStatus p.order_type response.taking_amount p.size r.status

abbrev pub IsProcessed :
    (success : Bool) → OrderParams → PostOrderResponse → ExecutionResult → Type 0
IsProcessed true p response r = IsAccepted p response r
IsProcessed false p response r = IsFailure rejected r

-- What an execution reports, by whether the circuit breaker allows it, whether the rate limiter
-- admits it, and what the exchange answers.
abbrev pub IsOutcome : (allowed acquired : Bool) → OrderParams → Answer → ExecutionResult → Type 0
IsOutcome false _ p answer r = IsFailure circuit_open r
IsOutcome true false p answer r = IsFailure submission_failed r
IsOutcome true true p (unsent _) r = IsFailure submission_failed r
IsOutcome true true p (posted response) r = IsProcessed response.success p response r

status_of-HasStatus :
    (t : OrderType) (taking size : Decimal)
    → HasStatus t taking size (status_of t (min taking size) size)
unfolding status_of
status_of-HasStatus t taking size = elim (Bool-cases (le size (min taking size))) [
  | inl full ↦ rw full (record {
    when_full = ground arith;
    when_partial = ground arith;
    when_cancelled = ground arith;
    when_pending = ground arith;
  })
  | inr short ↦ elim (Bool-cases (lt nought (min taking size))) [
    | inl some_fill ↦
        rw (short, some_fill)
          (record {
            when_full = ground arith;
            when_partial = ground arith;
            when_cancelled = ground arith;
            when_pending = ground arith;
          })
    | inr no_fill ↦ elim (Bool-cases (is_fok t)) [
      | inl kill ↦
          rw (short, no_fill, kill)
            (record {
              when_full = ground arith;
              when_partial = ground arith;
              when_cancelled = ground arith;
              when_pending = ground arith;
            })
      | inr keep ↦
          rw (short, no_fill, keep)
            (record {
              when_full = ground arith;
              when_partial = ground arith;
              when_cancelled = ground arith;
              when_pending = ground arith;
            })
    ]
  ]
]

process_response_lem :
    (e : OrderExecutor) (params : OrderParams) (response : PostOrderResponse) (now : ℕ)
    → IsProcessed response.success params response (process_response e params response now).1
unfolding process_response
process_response_lem e params response now = elim (Bool-cases response.success) [
  | inr turned_down ↦ rw (turned_down, IsProcessed) (refl, refl, refl, refl)
  | inl taken ↦
      rw (taken, IsProcessed)
        (record {
          has_id = refl;
          has_size = refl;
          has_fill = refl;
          has_status = status_of-HasStatus params.order_type response.taking_amount params.size;
        })
]

module _ ⦃o : DecimalOps⦄ (to_order_params : IntentRef → ℕ → OrderParams) where
  answer_to_lem :
      (e : OrderExecutor) (intent : OrderIntent) (params : OrderParams) (answer : Answer) (now : ℕ)
      → IsOutcome true true params answer (answer_to to_order_params e intent params answer now).1
  answer_to_lem e intent params (unsent error) now = (refl, refl, refl, refl)
  answer_to_lem e intent params (posted response) now = process_response_lem e params response now

  -- What an execution reports follows from the guards and the exchange's answer: an open circuit
  -- where the circuit breaker refuses, and else a failed submission where the rate limiter refuses
  -- or the order cannot be sent, and a rejection where the exchange rejects it, each with nothing
  -- filled and no order id; and where the exchange accepts the order, its id, what the exchange
  -- takes as the filled size, at most the size of the order, and as status fully filled, partially
  -- filled, cancelled or pending exactly as this and the type of the order say.
  pub execute_lem :
      (e : OrderExecutor) (intent : OrderIntent) (now : ℕ) (answer : Answer) (later : ℕ)
      → IsOutcome
          (is_trading_allowed now e.circuit_breaker).1
          (try_acquire e.rate_limiter now).1
          (order_for to_order_params intent now)
          answer
          (execute to_order_params e intent now answer later).1
  unfolding execute begin_execute finish_execute
  execute_lem e intent now answer later =
      elim (Bool-cases (is_trading_allowed now e.circuit_breaker).1) [
        | inr halted ↦ rw (halted, IsOutcome) (refl, refl, refl, refl)
        | inl allowed ↦ elim (Bool-cases (try_acquire e.rate_limiter now).1) [
          | inr full ↦ rw (allowed, full, IsOutcome) (refl, refl, refl, refl)
          | inl acquired ↦
              rw (allowed, acquired)
                (answer_to_lem _ intent (order_for to_order_params intent now) answer later)
        ]
      ]
