-- ===== src/Risk/CircuitBreaker/Barring.antt =====
-- A circuit that has been opened, by whatever call, and what keeps it open.
use poly_bot.Prelude.{
  ℕ, ◌+◌, ◌-◌, ◌≡◌, refl, sym, ap, ◌∙◌, u32, true, false, Option, none, some, arith, Bool-cases,
  inl, inr, ltb, leb,
}
use poly_bot.Types.{ErrorType, fatal, retryable, expected}
use poly_bot.Risk.CircuitBreaker.{
  CircuitBreaker, CircuitState, OpenReason, record_success, record_fatal, check_reject_rate, close,
  reset_counters, is_half_open, exceeds_rate, open_circuit, closed, half_open, manual_trigger,
  allows, is_trading_allowed, manual_open, open_with, opened, is_open, maybe_reset_window,
  maybe_transition_to_half_open, record_order_result,
}

-- Open since `t`, for whatever reason.
pub record IsBarred (t d : ℕ) (cb : CircuitBreaker) : Type 0 where
  pub is_barred : is_open cb.state ≡ true
  pub barred_since : cb.opened_at ≡ some t
  pub barred_for : cb.reset_timeout ≡ d

pub barred_asks :
    (t d : ℕ) (cb : CircuitBreaker) (now : ℕ)
    → IsBarred t d cb
    → ltb (now - t) d ≡ true
    → is_trading_allowed now cb ≡ (cb, false)
unfolding is_trading_allowed
barred_asks t d cb now h q = ground arith

pub barred_opens :
    (t d : ℕ) (cb : CircuitBreaker) (now : ℕ) → IsBarred t d cb → manual_open now cb ≡ cb
unfolding manual_open
barred_opens t d cb now h = ground arith

-- Opened at `t`, if open.
abbrev pub IsFresh : (t : ℕ) → CircuitState → Option ℕ → Type 0
IsFresh t open_circuit opened_at = opened_at ≡ some t
IsFresh t _ opened_at = Unit

opened-IsBarred :
    (t : ℕ) (cb : CircuitBreaker)
    → IsFresh t cb.state cb.opened_at
    → IsBarred t cb.reset_timeout (manual_open t cb)
unfolding manual_open open_with
opened-IsBarred t cb h = go cb.state refl
  where
    go :
        (s : CircuitState)
        → cb.state ≡ s
        → IsBarred t cb.reset_timeout (opened cb.state manual_trigger t cb)
    go open_circuit e = rw e (ground (arith, e, h))
    go closed e = rw e (record { is_barred = refl; barred_since = refl; barred_for = refl })
    go half_open e = rw e (record { is_barred = refl; barred_since = refl; barred_for = refl })

window-fresh :
    (t : ℕ) (cb : CircuitBreaker)
    → is_open cb.state ≡ false
    → (is_open (maybe_reset_window t cb).state ≡ false)
      × ((maybe_reset_window t cb).reset_timeout ≡ cb.reset_timeout)
unfolding maybe_reset_window
window-fresh t cb h = ground arith

abbrev pub AreFresh : (t d : ℕ) → CircuitBreaker → Type 0
AreFresh t d cb = IsFresh t cb.state cb.opened_at × (cb.reset_timeout ≡ d)

pub shut_asks :
    (cb : CircuitBreaker) (now : ℕ)
    → is_open cb.state ≡ false
    → is_trading_allowed now cb ≡ (cb, true)
unfolding is_trading_allowed maybe_transition_to_half_open
shut_asks cb now h = rw h (ap (λ b. (cb, b)) (go cb.state h))
  where
    go : (s : CircuitState) → is_open s ≡ false → allows s ≡ true
    go open_circuit e = cc
    go closed e = refl
    go half_open e = refl

pub shut_fresh :
    (t : ℕ) (cb : CircuitBreaker) → is_open cb.state ≡ false → AreFresh t cb.reset_timeout cb
shut_fresh t cb h = (go cb.state cb.opened_at h, refl)
  where
    go : (s : CircuitState) (opened_at : Option ℕ) → is_open s ≡ false → IsFresh t s opened_at
    go open_circuit opened_at e = cc
    go closed opened_at e = tt
    go half_open opened_at e = tt

open_with-fresh :
    (reason : OpenReason) (t : ℕ) (cb : CircuitBreaker)
    → is_open cb.state ≡ false
    → AreFresh t cb.reset_timeout (open_with reason t cb)
unfolding open_with
open_with-fresh reason t cb h = go cb.state h
  where
    go : (s : CircuitState) → is_open s ≡ false → AreFresh t cb.reset_timeout (opened s reason t cb)
    go open_circuit e = cc
    go closed e = (refl, refl)
    go half_open e = (refl, refl)

record_success-fresh :
    (t : ℕ) (cb : CircuitBreaker)
    → is_open cb.state ≡ false
    → AreFresh t cb.reset_timeout (record_success t cb)
unfolding record_success close reset_counters
record_success-fresh t cb h = elim (Bool-cases (is_half_open cb.state)) [
  | inr other ↦ rw other (shut_fresh t cb h)
  | inl half ↦
      elim (Bool-cases (leb cb.half_open_success_required (u32 (cb.half_open_successes + 1)))) [
        | inl enough ↦ rw (half, enough) (tt, refl)
        | inr few ↦ rw (half, few) (shut_fresh t cb h)
      ]
]

record_fatal-fresh :
    (t : ℕ) (cb : CircuitBreaker)
    → is_open cb.state ≡ false
    → AreFresh t cb.reset_timeout (record_fatal t cb)
unfolding record_fatal check_reject_rate
record_fatal-fresh t cb h =
    let counted = record cb {
      orders_rejected = u32 (cb.orders_rejected + 1);
      fatal_error_count = u32 (cb.fatal_error_count + 1);
    } in
    elim (Bool-cases (leb cb.fatal_threshold (u32 (cb.fatal_error_count + 1)))) [
      | inl many ↦ rw many (open_with-fresh _ t counted h)
      | inr few ↦ elim (Bool-cases (exceeds_rate counted)) [
        | inl high ↦ rw (few, high) (open_with-fresh _ t counted h)
        | inr low ↦ rw (few, low) (shut_fresh t counted h)
      ]
    ]

pub record_order_result-fresh :
    (error : Option ErrorType) (t : ℕ) (cb : CircuitBreaker)
    → is_open cb.state ≡ false
    → AreFresh t cb.reset_timeout (record_order_result error t cb)
unfolding record_order_result
record_order_result-fresh error t cb h =
    let (shut, same) = window-fresh t cb h in
    let (fresh, kept) = go error shut in (fresh, kept ∙ same)
  where
    go :
        (error : Option ErrorType)
        → is_open (maybe_reset_window t cb).state ≡ false
        → AreFresh t (maybe_reset_window t cb).reset_timeout (record_order_result error t cb)
    go none k = record_success-fresh t (maybe_reset_window t cb) k
    go (some fatal) k = record_fatal-fresh t (maybe_reset_window t cb) k
    go (some retryable) k = shut_fresh t (maybe_reset_window t cb) k
    go (some expected) k = shut_fresh t (maybe_reset_window t cb) k

pub tripped-IsBarred :
    (t d : ℕ) (cb : CircuitBreaker) → AreFresh t d cb → IsBarred t d (manual_open t cb)
tripped-IsBarred t d cb (h, e) = rw (sym e) (opened-IsBarred t cb h)
