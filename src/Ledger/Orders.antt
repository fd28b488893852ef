-- ===== src/Ledger/Orders.antt =====
-- src/ledger/orders.rs: the life of an order, and `OpenOrders`, which keeps every order under its
-- local id and a copy of each acknowledged order under the exchange's id. A method is one step; the
-- time that it reads is its argument `now`.
pub mod States
pub mod Coherence
pub mod Updates
pub mod Cleanup
mod Examples
use poly_bot.Prelude.{
  ℕ, ◌+◌, Bool, true, false, Option, none, some, List, [], ◌∷◌, map, length, filter, u64,
  if◌then◌else◌, ◌==◌,
}
use poly_bot.Prelude.Dict.{Dict, lookup, insert, erase, adjust, values}
use poly_bot.Decimal.{Decimal, nought, le, DecimalOps, add, sub, mul, total_of}
unfoldable pub use poly_bot.Ledger.Lifecycle.{can_transition_to, is_terminal, is_active, is_open}
use poly_bot.Types.{
  Key, Side, OrderState, created_local, signed, submitted, acked, partially_filled, filled,
  cancel_pending, cancelled, expired, rejected, unknown, BotError, Result, ok, err,
}

pub record TrackedOrder : Type 0 where
  pub order_id : Option Key
  pub local_id : Key
  pub state : OrderState
  pub token_id : Key
  pub side : Side
  pub price : Decimal
  pub original_size : Decimal
  pub filled_size : Decimal
  pub remaining_size : Decimal
  pub created_at : ℕ
  pub last_update : ℕ
  pub strategy_id : Option Key

-- `TrackedOrder::new`; the fresh UUID is an argument.
unfoldable pub new_order :
    (uuid now token_id : ℕ) → Side → Decimal → Decimal → Option Key → TrackedOrder
new_order uuid now token_id side price size strategy_id = record {
  order_id = none;
  local_id = uuid;
  state = created_local;
  token_id = token_id;
  side = side;
  price = price;
  original_size = size;
  filled_size = nought;
  remaining_size = size;
  created_at = now;
  last_update = now;
  strategy_id = strategy_id;
}

pub record OpenOrders : Type 0 where
  pub by_order_id : Dict TrackedOrder
  pub by_local_id : Dict TrackedOrder
  pub total_created : ℕ
  pub total_filled : ℕ
  pub total_cancelled : ℕ
  pub total_rejected : ℕ

pub record OrderStats : Type 0 where
  pub total_created : ℕ
  pub total_filled : ℕ
  pub total_cancelled : ℕ
  pub total_rejected : ℕ
  pub active_count : ℕ

unfoldable pub new : OpenOrders
new = record {
  by_order_id = [];
  by_local_id = [];
  total_created = 0;
  total_filled = 0;
  total_cancelled = 0;
  total_rejected = 0;
}

unfoldable pub add_order : OpenOrders → TrackedOrder → OpenOrders × Key
add_order s order = (
  record s {
    by_local_id = insert order.local_id order s.by_local_id;
    total_created = u64 (s.total_created + 1);
  },
  order.local_id,
)

unfoldable pub get_by_order_id : OpenOrders → Key → Option TrackedOrder
get_by_order_id s order_id = lookup order_id s.by_order_id

unfoldable pub get_by_local_id : OpenOrders → Key → Option TrackedOrder
get_by_local_id s local_id = lookup local_id s.by_local_id

abbrev pub linked : Key → ℕ → TrackedOrder → TrackedOrder
linked order_id now order = record order { order_id = some order_id; last_update = now }

unfoldable pub link_order_id : OpenOrders → Key → Key → ℕ → OpenOrders × Result (Unit {0})
link_order_id s local_id order_id now = elim (lookup local_id s.by_local_id) [
  | none ↦ (s, err (BotError.unknown_local_id local_id))
  | some order ↦ (
    record s {
      by_local_id = adjust local_id (linked order_id now) s.by_local_id;
      by_order_id = insert order_id (linked order_id now order) s.by_order_id;
    },
    ok tt,
  )
]

-- The write to the copy, which goes through only if the order has an exchange id.
abbrev pub adjust_copy :
    Option Key → (TrackedOrder → TrackedOrder) → Dict TrackedOrder → Dict TrackedOrder
adjust_copy none f m = m
adjust_copy (some k) f m = adjust k f m

abbrev pub erase_copy : Option Key → Dict TrackedOrder → Dict TrackedOrder
erase_copy none m = m
erase_copy (some k) m = erase k m

abbrev pub moved : OrderState → ℕ → TrackedOrder → TrackedOrder
moved new_state now order = record order { state = new_state; last_update = now }

-- The counters of the terminal states.
abbrev pub count_state : OrderState → OpenOrders → OpenOrders
count_state filled s = record s { total_filled = u64 (s.total_filled + 1) }
count_state cancelled s = record s { total_cancelled = u64 (s.total_cancelled + 1) }
count_state rejected s = record s { total_rejected = u64 (s.total_rejected + 1) }
count_state _ s = s

unfoldable pub transition : OpenOrders → Key → OrderState → ℕ → OpenOrders × Result OrderState
transition s local_id new_state now = elim (lookup local_id s.by_local_id) [
  | none ↦ (s, err (BotError.unknown_local_id local_id))
  | some order ↦
      if can_transition_to order.state new_state
      then (
        count_state new_state (record s {
          by_local_id = adjust local_id (moved new_state now) s.by_local_id;
          by_order_id = adjust_copy order.order_id (moved new_state now) s.by_order_id;
        }),
        ok order.state,
      )
      else (s, err (BotError.invalid_transition order.state new_state))
]

abbrev pub after_partial : OrderState → OrderState
after_partial acked = partially_filled
after_partial other = other

module _ ⦃o : DecimalOps⦄ where
  unfoldable pub remaining_notional : TrackedOrder → Decimal
  remaining_notional order = mul order.remaining_size order.price

  unfoldable pub filled_notional : TrackedOrder → Decimal
  filled_notional order = mul order.filled_size order.price

  -- What `apply_fill` makes of the local order.
  abbrev pub filled_by : Decimal → ℕ → TrackedOrder → TrackedOrder
  filled_by fill_size now order =
      let filled_now = add order.filled_size fill_size in
      let remaining = sub order.original_size filled_now in
      record order {
        filled_size = filled_now;
        remaining_size = remaining;
        last_update = now;
        state = if le remaining nought then filled else after_partial order.state;
      }

  -- The copy takes four fields from the local order.
  abbrev pub copied_from : TrackedOrder → TrackedOrder → TrackedOrder
  copied_from order copy = record copy {
    filled_size = order.filled_size;
    remaining_size = order.remaining_size;
    state = order.state;
    last_update = order.last_update;
  }

  unfoldable pub apply_fill : OpenOrders → Key → Decimal → ℕ → OpenOrders × Result Decimal
  apply_fill s local_id fill_size now = elim (lookup local_id s.by_local_id) [
    | none ↦ (s, err (BotError.unknown_local_id local_id))
    | some order ↦
        let order' = filled_by fill_size now order in
        (
          record s {
            by_local_id = adjust local_id (filled_by fill_size now) s.by_local_id;
            by_order_id = adjust_copy order.order_id (copied_from order') s.by_order_id;
            total_filled =
                if le order'.remaining_size nought
                then u64 (s.total_filled + 1)
                else s.total_filled;
          },
          ok order'.remaining_size,
        )
  ]

  -- The cash that the active orders should have locked.
  unfoldable pub total_reserved_notional : OpenOrders → Decimal
  unfolding remaining_notional
  total_reserved_notional s = total_of (
      map remaining_notional
        (filter (λ (order : TrackedOrder). is_active order.state) (values s.by_local_id)))

unfoldable pub active_orders : OpenOrders → List TrackedOrder
unfolding is_active
active_orders s = filter (λ order. is_active order.state) (values s.by_local_id)

unfoldable pub all_open : OpenOrders → List TrackedOrder
unfolding active_orders
all_open s = active_orders s

unfoldable pub orders_for_token : OpenOrders → Key → List TrackedOrder
orders_for_token s token_id = filter (λ order. order.token_id == token_id) (values s.by_local_id)

unfoldable pub active_count : OpenOrders → ℕ
unfolding is_active
active_count s = length (filter (λ order. is_active order.state) (values s.by_local_id))

unfoldable pub remove_one : OpenOrders → Key → OpenOrders
remove_one s local_id = elim (lookup local_id s.by_local_id) [
  | none ↦ s
  | some order ↦ record s {
    by_local_id = erase local_id s.by_local_id;
    by_order_id = erase_copy order.order_id s.by_order_id;
  }
]

unfoldable pub remove_all : OpenOrders → List Key → OpenOrders
unfolding remove_one
remove_all s [] = s
remove_all s (local_id ∷ ids) = remove_all (remove_one s local_id) ids

abbrev pub local_id_of : TrackedOrder → Key
local_id_of order = order.local_id

unfoldable pub terminal_ids : OpenOrders → List Key
unfolding is_terminal
terminal_ids s = map local_id_of (filter (λ order. is_terminal order.state) (values s.by_local_id))

-- Drops every order that is done, with its copy.
unfoldable pub remove_terminal : OpenOrders → OpenOrders
unfolding remove_all terminal_ids
remove_terminal s = remove_all s (terminal_ids s)

unfoldable pub stats : OpenOrders → OrderStats
unfolding active_count
stats s = record {
  total_created = s.total_created;
  total_filled = s.total_filled;
  total_cancelled = s.total_cancelled;
  total_rejected = s.total_rejected;
  active_count = active_count s;
}
