-- ===== src/Execution/Cancellation/Examples.antt =====
-- Cancelling two resting orders, one of which the exchange keeps.
use poly_bot.Prelude.{◌≡◌, refl, false, none, some, [], ◌∷◌, contains, is_empty, if◌then◌else◌}
use poly_bot.Prelude.Dict.{lookup}
use poly_bot.Decimal.{dec, nought}
use poly_bot.Decimal.Exact.{exact_ops}
use poly_bot.Types.{Key, buy}
use poly_bot.Execution.OrderTracker.{
  index_add, orders_for_market, RestingOrder, OrderTracker, new, track, all_orders,
}
use poly_bot.Execution.OrderTracker.Indices.{IsReached}
use poly_bot.Execution.Cancellation.{
  cancel, cancel_each, CancelOrdersResponse, Reply, replied, no_reply, cancel_market, cancel_all,
}
use poly_bot.Execution.Cancellation.Effects.{confirms, cancel_all_lem}

abbrev order_of : Key → RestingOrder
order_of id = record {
  order_id = id;
  token_id = 5;
  market_id = 7;
  side = buy;
  price = dec 4 1;
  original_size = dec 100 0;
  filled_size = nought;
  created_at = 10;
  strategy_name = 1;
  group_id = some 3;
}

abbrev two : OrderTracker
two = track (track new (order_of 1)) (order_of 2)

two-IsReached : IsReached two
unfolding new track
two-IsReached =
    IsReached.tracked (order_of 2) refl (IsReached.tracked (order_of 1) refl IsReached.at_start)

abbrev response : CancelOrdersResponse
response = record { canceled = 1 ∷ []; not_canceled = (2, 99) ∷ [] }

abbrev exchange : Key → Reply
exchange i = replied response

cancelled_count : (cancel_market exchange two 7).1 ≡ 1
unfolding cancel_market orders_for_market track index_add new cancel_each cancel
cancelled_count = refl

two_tracked : is_empty (all_orders two) ≡ false
unfolding all_orders track new
two_tracked = refl

cancel_all_lem_example :
    (lookup 1 (cancel_all exchange two (no_reply 4)).0.orders
      ≡ (if confirms exchange 1 then none else lookup 1 two.orders))
    × (lookup 1 (cancel_all exchange two (replied response)).0.orders
        ≡ (if contains 1 response.canceled then none else lookup 1 two.orders))
cancel_all_lem_example = cancel_all_lem exchange two 1 4 response two-IsReached two_tracked
