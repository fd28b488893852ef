-- ===== src/Orchestrator/Intents/Counting.antt =====
-- How often a filled order counts on the circuit breaker that the executor shares.
use poly_bot.Prelude.{
  leb, if◌then◌else◌, ◌<◌, ◌+◌, ◌∙◌, ap, ℕ, ◌≡◌, refl, true, false, none, [], ◌∷◌, arith,
  Bool-cases, inl, inr,
}
use poly_bot.Decimal.{Decimal, nought, le, lt, min, ◌<ℤ◌, DecimalOps}
use poly_bot.Types.{Key, OrderType}
use poly_bot.Risk.CircuitBreaker.{
  closed, CircuitBreaker, closed, half_open, is_trading_allowed, maybe_transition_to_half_open,
  record_order_result,
}
use poly_bot.Risk.CircuitBreaker.Invariant.{step, run}
use poly_bot.Risk.CircuitBreaker.Recovery.{recovers, successes}
use poly_bot.Risk.RateLimiter.{try_acquire}
use poly_bot.Strategy.Traits.{OrderIntent, is_grouped}
use poly_bot.Execution.Policy.{IntentRef, OrderParams}
use poly_bot.Execution.Executor.{
  status_of, OrderExecutor, PostOrderResponse, posted, Attempt, order_for, begin_execute, begin_all,
  finish_all, finish_execute, process_response, execute_batch,
}
use poly_bot.Orchestrator.Intents.{handle_execution_result, handle_all, execute_intents}

trading-half_open :
    (cb : CircuitBreaker) (now : ℕ) → cb.state ≡ half_open → is_trading_allowed now cb ≡ (cb, true)
unfolding is_trading_allowed maybe_transition_to_half_open
trading-half_open cb now h = rw h refl

handled-fill :
    (t : OrderType) (f size : Decimal) (now : ℕ) (cb : CircuitBreaker)
    → nought <ℤ f
    → handle_execution_result (status_of t f size) now cb ≡ record_order_result none now cb
unfolding handle_execution_result status_of
handled-fill t f size now cb h = elim (Bool-cases (le size f)) [
  | inl full ↦ rw full refl
  | inr short ↦ let some_fill : lt nought f ≡ true = ground arith in rw (short, some_fill) refl
]

min_pos : (a b : Decimal) → nought <ℤ a → nought <ℤ b → nought <ℤ min a b
min_pos a b h k = ground arith

module _ ⦃o : DecimalOps⦄ (unwind_name : Key → Key) (to_order_params : IntentRef → ℕ → OrderParams)
    (e : OrderExecutor) (x : OrderIntent) (response : PostOrderResponse) (now later last budget : ℕ)
    (attempt : ℕ → Attempt) where
  counted_twice :
      e.circuit_breaker.state ≡ half_open
      → (try_acquire e.rate_limiter now).1 ≡ true
      → is_grouped x ≡ false
      → response.success ≡ true
      → nought <ℤ response.taking_amount
      → nought <ℤ (order_for to_order_params x now).size
      → (execute_intents unwind_name to_order_params e
          (record { intent = x; answer = posted response } ∷ [])
          now
          later
          last
          budget
          attempt).circuit_breaker
        ≡ run e.circuit_breaker (successes (later ∷ last ∷ []))
  unfolding execute_intents execute_batch begin_all begin_execute finish_all finish_execute
      process_response handle_all run step
  counted_twice h a g s t z =
      rw (g, trading-half_open e.circuit_breaker now h, a, s)
        (handled-fill _ _ _ last _ (min_pos _ _ t z))

  -- One filled order that is not in a group, and that the rate limiter admits, counts as two
  -- successes: it closes a half-open circuit exactly when two complete the number that it requires,
  -- in counters that do not wrap.
  pub fill_counts_twice :
      e.circuit_breaker.state ≡ half_open
      → e.circuit_breaker.half_open_success_required < 4294967296
      → e.circuit_breaker.half_open_successes < e.circuit_breaker.half_open_success_required
      → (try_acquire e.rate_limiter now).1 ≡ true
      → is_grouped x ≡ false
      → response.success ≡ true
      → nought <ℤ response.taking_amount
      → nought <ℤ (order_for to_order_params x now).size
      → (execute_intents unwind_name to_order_params e
          (record { intent = x; answer = posted response } ∷ [])
          now
          later
          last
          budget
          attempt).circuit_breaker.state
        ≡ (if leb e.circuit_breaker.half_open_success_required
              (e.circuit_breaker.half_open_successes + 2)
            then closed
            else half_open)
  fill_counts_twice h w k a g s t z =
      ap (λ (cb : CircuitBreaker). cb.state) (counted_twice h a g s t z)
      ∙ recovers (later ∷ last ∷ []) e.circuit_breaker h w k
