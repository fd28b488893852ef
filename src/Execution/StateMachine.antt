-- ===== src/Execution/StateMachine.antt =====
-- src/execution/state_machine.rs: the checks of the ledger and of a proposed transition. The details
-- that a violation formats are left out.
use poly_bot.Prelude.{
  not, ◌||◌, ◌≡◌, refl, Bool, true, false, ◌&&◌, List, [], ◌∷◌, ◌++◌, filter, if◌then◌else◌, arith,
}
use poly_bot.Prelude.Dict.{values}
use poly_bot.Decimal.{Decimal, dec, lt, abs, DecimalOps, sub}
use poly_bot.Types.{
  Key, OrderState, created_local, signed, submitted, acked, partially_filled, cancel_pending,
  unknown,
}
use poly_bot.Ledger.{Ledger}
use poly_bot.Ledger.Orders.{
  TrackedOrder, can_transition_to, is_terminal, is_active, active_orders, total_reserved_notional,
}

pub data InvariantViolation : Type 0 where
  cash_mismatch : (expected_reserved actual_reserved : Decimal) → InvariantViolation
  invalid_order_state : (local_id : Key) (state : OrderState) → InvariantViolation

unfoldable pub validate_transition : OrderState → OrderState → Bool
validate_transition from to = can_transition_to from to

unfoldable pub can_cancel : OrderState → Bool
can_cancel acked = true
can_cancel partially_filled = true
can_cancel _ = false

unfoldable pub requires_ack : OrderState → Bool
requires_ack created_local = true
requires_ack signed = true
requires_ack submitted = true
requires_ack _ = false

-- The active orders in a terminal state.
unfoldable pub terminal_violations : List TrackedOrder → List InvariantViolation
terminal_violations [] = []
terminal_violations (x ∷ xs) =
    let rest = terminal_violations xs in
    if is_terminal x.state then invalid_order_state x.local_id x.state ∷ rest else rest

abbrev pub is_unknown : OrderState → Bool
is_unknown unknown = true
is_unknown _ = false

module _ ⦃o : DecimalOps⦄ where
  -- a tolerance of 0.0001
  abbrev pub cash_violations :
      (expected_reserved actual_reserved : Decimal) → List InvariantViolation
  cash_violations expected_reserved actual_reserved =
      if lt (dec 1 4) (abs (sub expected_reserved actual_reserved))
      then cash_mismatch expected_reserved actual_reserved ∷ []
      else []

  unfoldable pub check_invariants : Ledger → List InvariantViolation
  check_invariants l =
      cash_violations (total_reserved_notional l.orders) l.cash.reserved
      ++ terminal_violations (active_orders l.orders)

no_terminal_step :
    (x : TrackedOrder) (xs : List TrackedOrder)
    → terminal_violations xs ≡ []
    → terminal_violations (if is_active x.state then x ∷ xs else xs) ≡ []
unfolding terminal_violations is_active is_terminal
no_terminal_step x xs h = ground arith

no_terminal_active :
    (xs : List TrackedOrder)
    → terminal_violations (filter (λ (x : TrackedOrder). is_active x.state) xs) ≡ []
unfolding terminal_violations
no_terminal_active [] = refl
no_terminal_active (x ∷ xs) =
    no_terminal_step x (filter (λ (y : TrackedOrder). is_active y.state) xs) (no_terminal_active xs)

-- The checks of a ledger report at most one thing, that the reserved cash is more than the
-- tolerance away from what the active orders would still cost: an active order is never in a
-- terminal state.
pub check_invariants_lem :
    ⦃o : DecimalOps⦄ (l : Ledger)
    → check_invariants l ≡ (
        if lt (dec 1 4) (abs (sub (total_reserved_notional l.orders) l.cash.reserved))
        then cash_mismatch (total_reserved_notional l.orders) l.cash.reserved ∷ []
        else [])
unfolding check_invariants active_orders
check_invariants_lem l = ground (arith, no_terminal_active (values l.orders.by_local_id))

-- An order can be cancelled exactly in the states from which the table leads to a pending cancel.
pub can_cancel_lem : (s : OrderState) → can_cancel s ≡ can_transition_to s cancel_pending
unfolding can_cancel can_transition_to
can_cancel_lem s = ground arith

-- An order waits for its acknowledgement exactly while it is neither active nor done nor unknown,
-- and cannot be cancelled then.
pub requires_ack_lem :
    (s : OrderState)
    → (requires_ack s ≡ not (is_active s || is_terminal s || is_unknown s))
      × ((requires_ack s && can_cancel s) ≡ false)
unfolding requires_ack can_cancel is_active is_terminal
requires_ack_lem s = ground arith
