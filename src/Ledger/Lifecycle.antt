-- ===== src/Ledger/Lifecycle.antt =====
-- src/ledger/orders.rs: the methods of `OrderState`, the states of an order and the moves between
-- them.
use poly_bot.Prelude.{Bool, true, false}
use poly_bot.Types.{
  OrderState, created_local, signed, submitted, acked, partially_filled, filled, cancel_pending,
  cancelled, expired, rejected, unknown,
}

unfoldable pub can_transition_to : OrderState → OrderState → Bool
can_transition_to created_local signed = true
can_transition_to signed submitted = true
can_transition_to submitted acked = true
can_transition_to submitted rejected = true
can_transition_to acked partially_filled = true
can_transition_to acked filled = true
can_transition_to acked cancel_pending = true
can_transition_to partially_filled filled = true
can_transition_to partially_filled cancel_pending = true
can_transition_to cancel_pending cancelled = true
can_transition_to cancel_pending filled = true
can_transition_to acked cancelled = true
can_transition_to partially_filled cancelled = true
can_transition_to _ unknown = true
can_transition_to _ expired = true
can_transition_to _ rejected = true
can_transition_to _ _ = false

unfoldable pub is_terminal : OrderState → Bool
is_terminal filled = true
is_terminal cancelled = true
is_terminal expired = true
is_terminal rejected = true
is_terminal _ = false

unfoldable pub is_active : OrderState → Bool
is_active acked = true
is_active partially_filled = true
is_active cancel_pending = true
is_active _ = false

unfoldable pub is_open : OrderState → Bool
unfolding is_active
is_open s = is_active s
