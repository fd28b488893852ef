-- ===== src/Execution/Executor/Calls.antt =====
-- What the executor tells the circuit breaker: its whole effect is a run of the breaker's own calls.
use poly_bot.Prelude.{
  ℕ, suc, ◌+◌, leb, ◌≡◌, refl, ap, sym, ◌∙◌, ◌&&◌, Bool, true, false, Option, none, some, List, [],
  ◌∷◌, ◌++◌, arith, Bool-cases, inl, inr,
}
use poly_bot.Decimal.{DecimalOps}
use poly_bot.Types.{Key, ErrorType, retryable, from_error_msg}
use poly_bot.Risk.CircuitBreaker.{CircuitBreaker, is_trading_allowed, record_order_result}
use poly_bot.Risk.CircuitBreaker.Invariant.{Event, step, run}
use poly_bot.Risk.RateLimiter.{try_acquire}
use poly_bot.Strategy.Traits.{OrderIntent}
use poly_bot.Execution.Policy.{IntentRef, OrderParams}
use poly_bot.Execution.Executor.{
  ExecutionResult, PostOrderResponse, Answer, posted, unsent, OrderExecutor, Leg, Begun, refused,
  sending, process_response, begin_execute, finish_execute, execute, begin_all, finish_all,
  execute_batch, Attempt, answer_to, tripped, after_unwind, unwind_begun, unwind_one, unwind_all,
  execute_grouped, is_fully_filled, first_grouped, min_filled, unwind_intents,
}

-- Asking, reporting a result and opening by hand.
abbrev pub is_execution : Event → Bool
is_execution Event.asked = true
is_execution (Event.result _) = true
is_execution Event.manual = true
is_execution _ = false

abbrev pub are_execution : List (Event × ℕ) → Bool
are_execution [] = true
are_execution ((e, now) ∷ es) = is_execution e && are_execution es

-- From one breaker to another by calls of these kinds.
abbrev pub Drives : CircuitBreaker → CircuitBreaker → Type 0
Drives cb cb' = (es : List (Event × ℕ)) × (are_execution es ≡ true) × (cb' ≡ run cb es)

Drives-none : (cb : CircuitBreaker) → Drives cb cb
unfolding run
Drives-none cb = ([], refl, refl)

Drives-one :
    (cb : CircuitBreaker) (e : Event) (now : ℕ) → is_execution e ≡ true → Drives cb (step cb e now)
unfolding run
Drives-one cb e now h = ((e, now) ∷ [], ground arith, refl)

are_execution-append :
    (es fs : List (Event × ℕ))
    → are_execution es ≡ true
    → are_execution fs ≡ true
    → are_execution (es ++ fs) ≡ true
are_execution-append [] fs h k = k
are_execution-append ((e, now) ∷ es) fs h k = ground (arith, are_execution-append es fs)

run-append :
    (cb : CircuitBreaker) (es fs : List (Event × ℕ)) → run cb (es ++ fs) ≡ run (run cb es) fs
unfolding run
run-append cb [] fs = refl
run-append cb ((e, now) ∷ es) fs = run-append (step cb e now) es fs

Drives-trans : (a b c : CircuitBreaker) → Drives a b → Drives b c → Drives a c
Drives-trans a b c (es, h, p) (fs, k, q) =
    (es ++ fs, are_execution-append es fs h k, q ∙ ap (λ x. run x fs) p ∙ sym (run-append a es fs))

abbrev breaker : OrderExecutor → CircuitBreaker
breaker e = e.circuit_breaker

Drives-result :
    (e : OrderExecutor) (error : Option ErrorType) (now : ℕ)
    → Drives (breaker e) (record_order_result error now (breaker e))
unfolding step
Drives-result e error now = Drives-one (breaker e) (Event.result error) now refl

process_response-Drives :
    (e : OrderExecutor) (params : OrderParams) (response : PostOrderResponse) (now : ℕ)
    → Drives (breaker e) (breaker (process_response e params response now).0)
unfolding process_response
process_response-Drives e params response now = elim (Bool-cases response.success) [
  | inl taken ↦ rw taken (Drives-result e none now)
  | inr turned_down ↦ rw turned_down (Drives-result e (some (from_error_msg _)) now)
]

module _ ⦃o : DecimalOps⦄ (to_order_params : IntentRef → ℕ → OrderParams) where
  begin-Drives :
      (e : OrderExecutor) (intent : OrderIntent) (now : ℕ)
      → Drives (breaker e) (breaker (begin_execute to_order_params e intent now).0)
  unfolding begin_execute step
  begin-Drives e intent now =
      let asked = Drives-one (breaker e) Event.asked now refl in
      elim (Bool-cases (is_trading_allowed now e.circuit_breaker).1) [
        | inr halted ↦ rw halted asked
        | inl allowed ↦ elim (Bool-cases (try_acquire e.rate_limiter now).1) [
          | inl acquired ↦ rw (allowed, acquired) asked
          | inr full ↦ rw (allowed, full) asked
        ]
      ]

  answer-Drives :
      (e : OrderExecutor) (intent : OrderIntent) (params : OrderParams) (answer : Answer) (now : ℕ)
      → Drives (breaker e) (breaker (answer_to to_order_params e intent params answer now).0)
  answer-Drives e intent params (posted response) now =
      process_response-Drives e params response now
  answer-Drives e intent params (unsent error) now = Drives-result e (some retryable) now

  finish-Drives :
      (e : OrderExecutor) (intent : OrderIntent) (begun : Begun) (answer : Answer) (now : ℕ)
      → Drives (breaker e) (breaker (finish_execute to_order_params e intent begun answer now).0)
  unfolding finish_execute
  finish-Drives e intent (refused r) answer now = Drives-none (breaker e)
  finish-Drives e intent (sending params) answer now = answer-Drives e intent params answer now

  pub execute-Drives :
      (e : OrderExecutor) (intent : OrderIntent) (now : ℕ) (answer : Answer) (later : ℕ)
      → Drives (breaker e) (breaker (execute to_order_params e intent now answer later).0)
  unfolding execute
  execute-Drives e intent now answer later =
      let (e', begun) = begin_execute to_order_params e intent now in
      Drives-trans (breaker e) (breaker e') _ (begin-Drives e intent now)
        (finish-Drives e' intent begun answer later)

  begin_all-Drives :
      (e : OrderExecutor) (legs : List Leg) (now : ℕ)
      → Drives (breaker e) (breaker (begin_all to_order_params e legs now).0)
  unfolding begin_all
  begin_all-Drives e [] now = Drives-none (breaker e)
  begin_all-Drives e (leg ∷ legs) now =
      Drives-trans (breaker e) (breaker (begin_execute to_order_params e leg.intent now).0) _
        (begin-Drives e leg.intent now)
        (begin_all-Drives (begin_execute to_order_params e leg.intent now).0 legs now)

  finish_all-Drives :
      (e : OrderExecutor) (legs : List (Leg × Begun)) (now : ℕ)
      → Drives (breaker e) (breaker (finish_all to_order_params e legs now).0)
  unfolding finish_all
  finish_all-Drives e [] now = Drives-none (breaker e)
  finish_all-Drives e ((leg, begun) ∷ legs) now =
      let e' = (finish_execute to_order_params e leg.intent begun leg.answer now).0 in
      Drives-trans (breaker e) (breaker e') _ (finish-Drives e leg.intent begun leg.answer now)
        (finish_all-Drives e' legs now)

  execute_batch-Drives :
      (e : OrderExecutor) (legs : List Leg) (now later : ℕ)
      → Drives (breaker e) (breaker (execute_batch to_order_params e legs now later).0)
  unfolding execute_batch
  execute_batch-Drives e legs now later =
      let (e', begun) = begin_all to_order_params e legs now in
      Drives-trans (breaker e) (breaker e') _ (begin_all-Drives e legs now)
        (finish_all-Drives e' begun later)

  module _ (unwind_name : Key → Key) where
    tripped-Drives :
        (e : OrderExecutor) (now : ℕ)
        → Drives (breaker e) (breaker (tripped unwind_name to_order_params e now))
    unfolding step
    tripped-Drives e now = Drives-one (breaker e) Event.manual now refl

    after-Drives :
        (a : OrderExecutor) (e : OrderExecutor) (r : ExecutionResult) (now : ℕ)
        → Drives (breaker a) (breaker e)
        → Drives (breaker a) (breaker (after_unwind unwind_name to_order_params (e, r) now))
    after-Drives a e r now d = elim (Bool-cases (is_fully_filled r.status)) [
      | inl full ↦ rw full d
      | inr short ↦ rw short (Drives-trans (breaker a) (breaker e) _ d (tripped-Drives e now))
    ]

    unwind_begun-Drives :
        (deadline now : ℕ) (a : Attempt) (e : OrderExecutor) (x : OrderIntent) (begun : Begun)
        → Drives
            (breaker e)
            (breaker (unwind_begun unwind_name to_order_params deadline now a e x begun).0)
    unfolding unwind_begun
    unwind_begun-Drives deadline now a e x (refused r) =
        after-Drives e e r now (Drives-none (breaker e))
    unwind_begun-Drives deadline now a e x (sending params) =
        elim (Bool-cases (leb (now + a.took) deadline)) [
          | inr cut_off ↦ rw cut_off (tripped-Drives e deadline)
          | inl timely ↦
              let (e', r) = answer_to to_order_params e x params a.answer (now + a.took) in
              rw timely (
                after-Drives e e' r (now + a.took)
                  (answer-Drives e x params a.answer (now + a.took)))
        ]

    unwind_one-Drives :
        (deadline now : ℕ) (a : Attempt) (e : OrderExecutor) (x : OrderIntent)
        → Drives (breaker e) (breaker (unwind_one unwind_name to_order_params deadline now a e x).0)
    unfolding unwind_one
    unwind_one-Drives deadline now a e x =
        let (e', begun) = begin_execute to_order_params e x now in
        Drives-trans (breaker e) (breaker e') _ (begin-Drives e x now)
          (unwind_begun-Drives deadline now a e' x begun)

    unwind_all-Drives :
        (deadline now : ℕ) (attempt : ℕ → Attempt) (e : OrderExecutor) (xs : List OrderIntent)
        → Drives
            (breaker e)
            (breaker (unwind_all unwind_name to_order_params deadline now attempt e xs))
    unfolding unwind_all
    unwind_all-Drives deadline now attempt e [] = Drives-none (breaker e)
    unwind_all-Drives deadline now attempt e (x ∷ xs) = elim (Bool-cases (leb deadline now)) [
      | inl past ↦ rw past (Drives-none (breaker e))
      | inr timely ↦
          let (e', later) = unwind_one unwind_name to_order_params deadline now (attempt 0) e x in
          rw timely (
            Drives-trans (breaker e) (breaker e') _ (unwind_one-Drives deadline now (attempt 0) e x)
              (unwind_all-Drives deadline (later + (attempt 0).pause) (λ n. attempt (suc n)) e' xs))
    ]

    -- Whatever the exchange answers, and whenever, the execution of a group with its unwinding does
    -- to the circuit breaker what some calls of it do, each of which asks for permission, reports a
    -- result or opens the circuit by hand.
    pub execute_grouped-Drives :
        (e : OrderExecutor) (legs : List Leg) (now later budget : ℕ) (attempt : ℕ → Attempt)
        → Drives (breaker e) (
            breaker (execute_grouped unwind_name to_order_params e legs now later budget attempt).0)
    unfolding execute_grouped
    execute_grouped-Drives e legs now later budget attempt =
        elim (Bool-cases (first_grouped unwind_name to_order_params legs)) [
          | inr single ↦ rw single (execute_batch-Drives e legs now later)
          | inl grouped ↦
              let (e', results) = execute_batch to_order_params e legs now later in
              rw grouped (
                Drives-trans (breaker e) (breaker e') _ (execute_batch-Drives e legs now later) (
                  unwind_all-Drives (later + budget) later attempt e'
                    (unwind_intents unwind_name (min_filled results) later results legs)))
        ]
