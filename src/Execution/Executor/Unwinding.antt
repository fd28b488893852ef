-- ===== src/Execution/Executor/Unwinding.antt =====
-- What stops the unwinding of a group.
use poly_bot.Prelude.{
  ℕ, suc, ◌+◌, ◌-◌, ◌≡◌, refl, Bool, true, false, none, some, List, [], ◌∷◌, ◌&&◌, arith,
  Bool-cases, inl, inr, ltb, leb,
}
use poly_bot.Decimal.{DecimalOps}
use poly_bot.Types.{Key, retryable, from_error_msg}
use poly_bot.Risk.CircuitBreaker.{is_open}
use poly_bot.Risk.RateLimiter.{try_acquire}
use poly_bot.Strategy.Traits.{OrderIntent}
use poly_bot.Execution.Policy.{IntentRef, OrderParams}
use poly_bot.Execution.Executor.{
  OrderExecutor, Answer, posted, unsent, process_response, begin_execute, Begun, sending, answer_to,
  refused, unfilled, circuit_open, circuit_breaker_open, Attempt, is_fully_filled, tripped,
  unwind_begun, unwind_one, unwind_all,
}
use poly_bot.Risk.CircuitBreaker.Barring.{
  IsBarred, barred_asks, barred_opens, AreFresh, shut_asks, shut_fresh, record_order_result-fresh,
  tripped-IsBarred,
}

module _ ⦃o : DecimalOps⦄ (unwind_name : Key → Key)
    (to_order_params : IntentRef → ℕ → OrderParams) where
  barred_begins :
      (t d : ℕ) (e : OrderExecutor) (x : OrderIntent) (now : ℕ)
      → IsBarred t d e.circuit_breaker
      → ltb (now - t) d ≡ true
      → begin_execute to_order_params e x now
        ≡ (e, refused (unfilled x.token_id x.size circuit_open circuit_breaker_open))
  unfolding begin_execute
  barred_begins t d e x now h q = rw (barred_asks t d e.circuit_breaker now h q) refl

  barred_trips :
      (t d : ℕ) (e : OrderExecutor) (now : ℕ)
      → IsBarred t d e.circuit_breaker
      → tripped unwind_name to_order_params e now ≡ e
  barred_trips t d e now h = rw (barred_opens t d e.circuit_breaker now h) refl

  barred_one :
      (t d deadline now : ℕ) (a : Attempt) (e : OrderExecutor) (x : OrderIntent)
      → IsBarred t d e.circuit_breaker
      → ltb (now - t) d ≡ true
      → unwind_one unwind_name to_order_params deadline now a e x ≡ (e, now)
  unfolding unwind_one unwind_begun
  barred_one t d deadline now a e x h q =
      rw (barred_begins t d e x now h q, barred_trips t d e now h) refl

  -- Once the circuit is open, for at least as long as the deadline lasts, every unwind is refused:
  -- the loop changes nothing, however many legs are still to be unwound.
  pub barred_unwinds :
      (t d deadline now : ℕ) (attempt : ℕ → Attempt) (e : OrderExecutor) (xs : List OrderIntent)
      → IsBarred t d e.circuit_breaker
      → ltb (deadline - t) d ≡ true
      → unwind_all unwind_name to_order_params deadline now attempt e xs ≡ e
  unfolding unwind_all
  barred_unwinds t d deadline now attempt e [] h q = refl
  barred_unwinds t d deadline now attempt e (x ∷ xs) h q = elim (Bool-cases (leb deadline now)) [
    | inl past ↦ rw past refl
    | inr timely ↦
        rw (timely, barred_one t d deadline now (attempt 0) e x h (ground arith))
          (barred_unwinds t d deadline (now + (attempt 0).pause) (λ n. attempt (suc n)) e xs h q)
  ]

  -- Whether an unwind that has begun is answered in time, as fully filled.
  abbrev pub is_filled : (deadline now : ℕ) → Attempt → OrderExecutor → OrderIntent → Begun → Bool
  is_filled deadline now a e x (refused result) = is_fully_filled result.status
  is_filled deadline now a e x (sending params) =
      leb (now + a.took) deadline
      && is_fully_filled (answer_to to_order_params e x params a.answer (now + a.took)).1.status

  abbrev pub is_unwound : (deadline now : ℕ) → Attempt → OrderExecutor → OrderIntent → Bool
  is_unwound deadline now a e x =
      let (e', begun) = begin_execute to_order_params e x now in is_filled deadline now a e' x begun

  begun_breaker :
      (e : OrderExecutor) (x : OrderIntent) (now : ℕ)
      → is_open e.circuit_breaker.state ≡ false
      → (begin_execute to_order_params e x now).0.circuit_breaker ≡ e.circuit_breaker
  unfolding begin_execute
  begun_breaker e x now h =
      let asked = shut_asks e.circuit_breaker now h in
      elim (Bool-cases (try_acquire e.rate_limiter now).1) [
        | inl acquired ↦ rw (asked, acquired) refl
        | inr full ↦ rw (asked, full) refl
      ]

  begun_shut :
      (e : OrderExecutor) (x : OrderIntent) (now : ℕ)
      → is_open e.circuit_breaker.state ≡ false
      → is_open (begin_execute to_order_params e x now).0.circuit_breaker.state ≡ false
  begun_shut e x now h = rw (begun_breaker e x now h) h

  begun_timeout :
      (e : OrderExecutor) (x : OrderIntent) (now : ℕ)
      → is_open e.circuit_breaker.state ≡ false
      → (begin_execute to_order_params e x now).0.circuit_breaker.reset_timeout
        ≡ e.circuit_breaker.reset_timeout
  begun_timeout e x now h = rw (begun_breaker e x now h) refl

  answered_fresh :
      (e : OrderExecutor) (x : OrderIntent) (params : OrderParams) (answer : Answer) (t : ℕ)
      → is_open e.circuit_breaker.state ≡ false
      → AreFresh t e.circuit_breaker.reset_timeout
          (answer_to to_order_params e x params answer t).0.circuit_breaker
  unfolding process_response
  answered_fresh e x params (unsent error) t h =
      record_order_result-fresh (some retryable) t e.circuit_breaker h
  answered_fresh e x params (posted response) t h = elim (Bool-cases response.success) [
    | inl taken ↦ rw taken (record_order_result-fresh none t e.circuit_breaker h)
    | inr turned_down ↦
        rw turned_down (record_order_result-fresh (some (from_error_msg _)) t e.circuit_breaker h)
  ]

  unfilled-IsBarred :
      (deadline now : ℕ) (a : Attempt) (e : OrderExecutor) (x : OrderIntent) (begun : Begun)
      → is_open e.circuit_breaker.state ≡ false
      → leb now deadline ≡ true
      → is_filled deadline now a e x begun ≡ false
      → let ended = unwind_begun unwind_name to_order_params deadline now a e x begun in
        IsBarred ended.1 e.circuit_breaker.reset_timeout ended.0.circuit_breaker
        × (leb now ended.1 ≡ true)
  unfolding unwind_begun
  unfilled-IsBarred deadline now a e x (refused r) h k f =
      rw f (
        tripped-IsBarred now _ e.circuit_breaker (shut_fresh now e.circuit_breaker h),
        ground arith,
      )
  unfilled-IsBarred deadline now a e x (sending params) h k f =
      elim (Bool-cases (leb (now + a.took) deadline)) [
        | inr cut_off ↦ rw cut_off (
          tripped-IsBarred deadline _ e.circuit_breaker (shut_fresh deadline e.circuit_breaker h),
          k,
        )
        | inl timely ↦
            let (e', r) = answer_to to_order_params e x params a.answer (now + a.took) in
            let short : is_fully_filled r.status ≡ false = ground (arith, f) in
            rw (timely, short)
              (
                tripped-IsBarred (now + a.took) _ e'.circuit_breaker
                    (answered_fresh e x params a.answer (now + a.took) h),
                ground arith,
              )
      ]

  -- From a circuit that is not open, an unwind whose turn comes before the deadline, and that is
  -- refused, cut off, or answered in time without being fully filled, leaves the circuit open, and
  -- the loop ends with it: the unwinds of all other legs change nothing, where what is left until
  -- the deadline is shorter than the circuit's timeout.
  pub unfilled_ends :
      (deadline now : ℕ) (attempt : ℕ → Attempt) (e : OrderExecutor) (x : OrderIntent)
      (xs : List OrderIntent)
      → is_open e.circuit_breaker.state ≡ false
      → ltb now deadline ≡ true
      → ltb (deadline - now) e.circuit_breaker.reset_timeout ≡ true
      → is_unwound deadline now (attempt 0) e x ≡ false
      → let ended = (unwind_one unwind_name to_order_params deadline now (attempt 0) e x).0 in
        (is_open ended.circuit_breaker.state ≡ true)
        × (unwind_all unwind_name to_order_params deadline now attempt e (x ∷ xs) ≡ ended)
  unfolding unwind_all unwind_one
  unfilled_ends deadline now attempt e x xs h timely q f =
      let (e', begun) = begin_execute to_order_params e x now in
      let ended = unwind_begun unwind_name to_order_params deadline now (attempt 0) e' x begun in
      let (barred, passed) =
        unfilled-IsBarred deadline now (attempt 0) e' x begun (begun_shut e x now h) (ground arith)
          f in
      let left : ltb (deadline - ended.1) e'.circuit_breaker.reset_timeout ≡ true =
        rw (begun_timeout e x now h) (ground (arith, passed)) in
      let before : leb deadline now ≡ false = ground arith in
      (
        barred.is_barred,
        rw before (
            barred_unwinds ended.1 e'.circuit_breaker.reset_timeout deadline
              (ended.1 + (attempt 0).pause) (λ n. attempt (suc n)) ended.0 xs barred left),
      )
