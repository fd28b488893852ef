-- ===== src/Execution/OrderTracker/Examples.antt =====
-- The tracker with two orders, one of them filled in two parts, and the theorems there.
use poly_bot.Prelude.{◌≡◌, refl, false, ◌&&◌, some, any, ◌==◌}
use poly_bot.Prelude.Int.{◌+ℤ◌}
use poly_bot.Prelude.Dict.{values}
use poly_bot.Decimal.{Decimal, dec, nought, eq}
use poly_bot.Decimal.Exact.{exact_ops}
use poly_bot.Types.{Key, buy, side_eq}
use poly_bot.Execution.OrderTracker.{
  RestingOrder, OrderTracker, new, track, remove, on_fill, has_order_at, active_count, is_filled,
  index_add, index_remove,
}
use poly_bot.Execution.OrderTracker.Indices.{IsReached}
use poly_bot.Execution.OrderTracker.Queries.{has_order_at_lem}

abbrev order_of : Key → Decimal → RestingOrder
order_of id price = record {
  order_id = id;
  token_id = 5;
  market_id = 7;
  side = buy;
  price = price;
  original_size = dec 100 0;
  filled_size = nought;
  created_at = 10;
  strategy_name = 1;
  group_id = some 3;
}

abbrev two : OrderTracker
two = track (track new (order_of 1 (dec 4 1))) (order_of 2 (dec 5 1))

abbrev part : OrderTracker
part = (on_fill two 1 (dec 60 0)).0

abbrev rest : OrderTracker
rest = (on_fill part 1 (dec 40 0)).0

rest-IsReached : IsReached rest
unfolding new track
rest-IsReached = IsReached.filled 1 (dec 40 0) (
    IsReached.filled 1 (dec 60 0) (
      IsReached.tracked (order_of 2 (dec 5 1)) refl
        (IsReached.tracked (order_of 1 (dec 4 1)) refl IsReached.at_start)))

rest_holds : (active_count rest ≡ 1) × (has_order_at rest 5 buy (dec 4 1) ≡ false)
unfolding new track on_fill remove active_count has_order_at is_filled index_add index_remove ◌+ℤ◌
rest_holds = (refl, refl)

has_order_at_lem_example :
    has_order_at rest 5 buy (dec 5 1)
    ≡ any
        (λ (x : RestingOrder). x.token_id == 5 && (side_eq x.side buy && eq x.price (dec 5 1)))
        (values rest.orders)
has_order_at_lem_example = has_order_at_lem rest 5 buy (dec 5 1) rest-IsReached
