-- ===== src/Risk/CircuitBreaker/Recovery.antt =====
-- What closes a half-open circuit again, and what trips one: runs of results alone.
use poly_bot.Prelude.{
  map, leb, ltb, length, ℕ, suc, ◌+◌, ◌-◌, ◌<◌, ◌≤◌, ◌≡◌, ◌∙◌, Bool, true, false, ◌&&◌, none, some,
  List, [], ◌∷◌, arith, if◌then◌else◌, Bool-cases, inl, inr,
}
use poly_bot.Types.{fatal}
use poly_bot.Risk.CircuitBreaker.{
  closed, open_circuit, half_open, CircuitBreaker, record_order_result, maybe_reset_window,
  record_success, record_fatal,
}
use poly_bot.Risk.CircuitBreaker.Invariant.{Event, step, run}

abbrev pub successes : List ℕ → List (Event × ℕ)
successes = map (λ now. (Event.result none, now))

abbrev pub fatals : List ℕ → List (Event × ℕ)
fatals = map (λ now. (Event.result (some fatal), now))

success-closed :
    (cb : CircuitBreaker) (now : ℕ)
    → cb.state ≡ closed
    → (step cb (Event.result none) now).state ≡ closed
unfolding step record_order_result record_success maybe_reset_window
success-closed cb now h = ground arith

success-last :
    (cb : CircuitBreaker) (now : ℕ)
    → cb.state ≡ half_open
    → cb.half_open_success_required < 4294967296
    → cb.half_open_successes < cb.half_open_success_required
    → cb.half_open_success_required ≤ cb.half_open_successes + 1
    → (step cb (Event.result none) now).state ≡ closed
unfolding step record_order_result record_success maybe_reset_window
success-last cb now h k b l = ground arith

success-more :
    (cb : CircuitBreaker) (now : ℕ)
    → cb.state ≡ half_open
    → cb.half_open_success_required < 4294967296
    → cb.half_open_successes + 1 < cb.half_open_success_required
    → ((step cb (Event.result none) now).state ≡ half_open)
      × ((step cb (Event.result none) now).half_open_successes ≡ cb.half_open_successes + 1)
      × ((step cb (Event.result none) now).half_open_success_required
          ≡ cb.half_open_success_required)
unfolding step record_order_result record_success maybe_reset_window
success-more cb now h k b = ground arith

successes-closed :
    (ts : List ℕ) (cb : CircuitBreaker) → cb.state ≡ closed → (run cb (successes ts)).state ≡ closed
unfolding run
successes-closed [] cb h = h
successes-closed (now ∷ ts) cb h =
    successes-closed ts (step cb (Event.result none) now) (success-closed cb now h)

recovers_last :
    (ts : List ℕ) (now : ℕ) (cb : CircuitBreaker)
    → cb.state ≡ half_open
    → cb.half_open_success_required < 4294967296
    → cb.half_open_successes < cb.half_open_success_required
    → leb cb.half_open_success_required (cb.half_open_successes + 1) ≡ true
    → (run (step cb (Event.result none) now) (successes ts)).state ≡ (
        if leb cb.half_open_success_required (cb.half_open_successes + suc (length ts))
        then closed
        else half_open)
recovers_last ts now cb h k b e =
    successes-closed ts (step cb (Event.result none) now) (success-last cb now h k b (ground arith))
    ∙ (ground arith)

recovers_more :
    (ts : List ℕ) (now : ℕ) (cb : CircuitBreaker)
    → cb.state ≡ half_open
    → cb.half_open_success_required < 4294967296
    → cb.half_open_successes < cb.half_open_success_required
    → leb cb.half_open_success_required (cb.half_open_successes + 1) ≡ false
    → (let cb' = step cb (Event.result none) now in
        (run cb' (successes ts)).state ≡ (
          if leb cb'.half_open_success_required (cb'.half_open_successes + length ts)
          then closed
          else half_open))
    → (run (step cb (Event.result none) now) (successes ts)).state ≡ (
        if leb cb.half_open_success_required (cb.half_open_successes + suc (length ts))
        then closed
        else half_open)
recovers_more ts now cb h k b e ih = ground (arith, success-more cb now h k)

-- Successes in a row close a half-open circuit exactly when they complete the number that it
-- requires, and leave it half open before, in counters that do not wrap.
pub recovers :
    (ts : List ℕ) (cb : CircuitBreaker)
    → cb.state ≡ half_open
    → cb.half_open_success_required < 4294967296
    → cb.half_open_successes < cb.half_open_success_required
    → (run cb (successes ts)).state ≡ (
        if leb cb.half_open_success_required (cb.half_open_successes + length ts)
        then closed
        else half_open)
unfolding run
recovers [] cb h k b = ground arith
recovers (now ∷ ts) cb h k b =
    elim (Bool-cases (leb cb.half_open_success_required (cb.half_open_successes + 1))) [
      | inl e ↦ recovers_last ts now cb h k b e
      | inr e ↦
          let (m0, m1, m2) = success-more cb now h k (ground arith) in
          recovers_more ts now cb h k b e (
            recovers ts (step cb (Event.result none) now) m0 (ground (arith, m2))
              (ground (arith, m1, m2)))
    ]

-- Every time lies in the error window that started at `start`.
abbrev pub is_within : (start duration : ℕ) → List ℕ → Bool
is_within start duration [] = true
is_within start duration (now ∷ ts) = ltb (now - start) duration && is_within start duration ts

fatal-open :
    (cb : CircuitBreaker) (now : ℕ)
    → cb.state ≡ open_circuit
    → (step cb (Event.result (some fatal)) now).state ≡ open_circuit
unfolding step record_order_result record_fatal maybe_reset_window
fatal-open cb now h = ground arith

fatal-trips :
    (cb : CircuitBreaker) (now : ℕ)
    → ltb (now - cb.window_start) cb.window_duration ≡ true
    → cb.fatal_threshold ≤ cb.fatal_error_count + 1
    → cb.fatal_error_count + 1 < 4294967296
    → (step cb (Event.result (some fatal)) now).state ≡ open_circuit
unfolding step record_order_result record_fatal maybe_reset_window
fatal-trips cb now w h k = ground arith

fatal-counts :
    (cb : CircuitBreaker) (now : ℕ)
    → ltb (now - cb.window_start) cb.window_duration ≡ true
    → cb.fatal_error_count + 1 < 4294967296
    → ((step cb (Event.result (some fatal)) now).fatal_error_count ≡ cb.fatal_error_count + 1)
      × ((step cb (Event.result (some fatal)) now).fatal_threshold ≡ cb.fatal_threshold)
      × ((step cb (Event.result (some fatal)) now).window_start ≡ cb.window_start)
      × ((step cb (Event.result (some fatal)) now).window_duration ≡ cb.window_duration)
unfolding step record_order_result record_fatal maybe_reset_window
fatal-counts cb now w k = ground arith

fatals-open :
    (ts : List ℕ) (cb : CircuitBreaker)
    → cb.state ≡ open_circuit
    → (run cb (fatals ts)).state ≡ open_circuit
unfolding run
fatals-open [] cb h = h
fatals-open (now ∷ ts) cb h =
    fatals-open ts (step cb (Event.result (some fatal)) now) (fatal-open cb now h)

fatal_run_step :
    (ts : List ℕ) (now : ℕ) (cb : CircuitBreaker)
    → ltb (now - cb.window_start) cb.window_duration ≡ true
    → cb.fatal_error_count + suc (length ts) < 4294967296
    → cb.fatal_threshold ≤ cb.fatal_error_count + suc (length ts)
    → ltb 0 (length ts) ≡ true
    → (let cb' = step cb (Event.result (some fatal)) now in
        (cb'.fatal_error_count + length ts < 4294967296)
        × (cb'.fatal_threshold ≤ cb'.fatal_error_count + length ts))
fatal_run_step ts now cb w k h l = ground (arith, fatal-counts cb now w)

within_step :
    (ts : List ℕ) (now : ℕ) (cb : CircuitBreaker)
    → ltb (now - cb.window_start) cb.window_duration ≡ true
    → cb.fatal_error_count + 1 < 4294967296
    → is_within cb.window_start cb.window_duration ts ≡ true
    → (let cb' = step cb (Event.result (some fatal)) now in
        is_within cb'.window_start cb'.window_duration ts ≡ true)
within_step ts now cb w k h = grind (arith, fatal-counts cb now w k, h)

within_head :
    (a d now : ℕ) (ts : List ℕ)
    → is_within a d (now ∷ ts) ≡ true
    → (ltb (now - a) d ≡ true) × (is_within a d ts ≡ true)
within_head a d now ts h = ground arith

-- Fatal errors within one window open the circuit, whatever its state, once they complete its
-- threshold, in counters that do not wrap.
pub trips :
    (ts : List ℕ) (cb : CircuitBreaker)
    → is_within cb.window_start cb.window_duration ts ≡ true
    → cb.fatal_error_count + length ts < 4294967296
    → cb.fatal_threshold ≤ cb.fatal_error_count + length ts
    → 0 < length ts
    → (run cb (fatals ts)).state ≡ open_circuit
unfolding run
trips [] cb w k h l = ground arith
trips (now ∷ ts) cb w k h l =
    let (w1, w2) = within_head cb.window_start cb.window_duration now ts w in
    elim (Bool-cases (ltb 0 (length ts))) [
      | inl e ↦
          let (k', h') = fatal_run_step ts now cb w1 k h e in
          trips ts (step cb (Event.result (some fatal)) now)
            (within_step ts now cb w1 (omega arith) w2) k' h' (ground arith)
      | inr e ↦
          fatals-open ts (step cb (Event.result (some fatal)) now)
            (fatal-trips cb now w1 (ground arith) (ground arith))
    ]
