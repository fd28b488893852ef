-- ===== src/Execution/Cancellation/Effects.antt =====
-- Which orders a cancellation leaves in the tracker, and that its indices stay right.
use poly_bot.Prelude.{
  ◌≡◌, refl, ◌∙◌, Bool, true, false, ◌&&◌, none, some, List, [], ◌∷◌, map, is_empty, ◌⊎◌, contains,
  ◌==◌, if◌then◌else◌, arith, Bool-cases, Option-cases, inl, inr,
}
use poly_bot.Prelude.Dict.{Dict, lookup, values, lookup-erase}
use poly_bot.Decimal.{DecimalOps}
use poly_bot.Types.{Key}
use poly_bot.Execution.OrderTracker.{
  OrderTracker, RestingOrder, remove, orders_for_market, orders_in_group, members, all_orders,
}
use poly_bot.Execution.OrderTracker.Indices.{
  IsReached, IsReached-IsIndexed, is_order_at, market_of, group_of,
}
use poly_bot.Execution.Cancellation.{
  Reply, is_done, verdict, cancel, cancel_each, cancel_listed, cancel_market, cancel_group,
  remove_each, cancel_all, replied, no_reply, CancelOrdersResponse,
}

lookup-remove :
    (t : OrderTracker) (i j : Key)
    → lookup j (remove t i).orders ≡ (if i == j then none else lookup j t.orders)
unfolding remove
lookup-remove t i j = elim (Option-cases (lookup i t.orders)) [
  | inl missing ↦ ground arith
  | inr (x, e) ↦ ground (arith, lookup-erase i j t.orders)
]

module _ (cancel_order : Key → Reply) where
  -- The exchange cancels the order.
  abbrev pub confirms : Key → Bool
  confirms i = is_done (verdict cancel_order i (cancel_order i))

  lookup-cancel :
      (t : OrderTracker) (i j : Key)
      → lookup j (cancel cancel_order t i).0.orders
        ≡ (if i == j && confirms i then none else lookup j t.orders)
  unfolding cancel
  lookup-cancel t i j = elim (Bool-cases (confirms i)) [
    | inl confirmed ↦ rw confirmed (ground (arith, lookup-remove t i j))
    | inr kept ↦ rw kept (ground arith)
  ]

  lookup-cancel_each :
      (t : OrderTracker) (ids : List Key) (j : Key)
      → lookup j (cancel_each cancel_order t ids).0.orders
        ≡ (if contains j ids && confirms j then none else lookup j t.orders)
  unfolding cancel_each
  lookup-cancel_each t [] j = refl
  lookup-cancel_each t (i ∷ ids) j =
      ground (arith, lookup-cancel_each (cancel cancel_order t i).0 ids j, lookup-cancel t i j)

  lookup-cancel_listed :
      (t : OrderTracker) (ids : List Key) (j : Key)
      → lookup j (cancel_listed cancel_order t ids).0.orders
        ≡ (if contains j ids && confirms j then none else lookup j t.orders)
  lookup-cancel_listed t [] j = refl
  lookup-cancel_listed t (i ∷ ids) j = lookup-cancel_each t (i ∷ ids) j

  cancel-IsReached :
      ⦃o : DecimalOps⦄ (t : OrderTracker) (i : Key)
      → IsReached t
      → IsReached (cancel cancel_order t i).0
  unfolding cancel
  cancel-IsReached t i h = elim (Bool-cases (confirms i)) [
    | inl confirmed ↦ rw confirmed (IsReached.removed i h)
    | inr kept ↦ rw kept h
  ]

  pub cancel_each-IsReached :
      ⦃o : DecimalOps⦄ (t : OrderTracker) (ids : List Key)
      → IsReached t
      → IsReached (cancel_each cancel_order t ids).0
  unfolding cancel_each
  cancel_each-IsReached t [] h = h
  cancel_each-IsReached t (i ∷ ids) h =
      cancel_each-IsReached (cancel cancel_order t i).0 ids (cancel-IsReached t i h)

  -- After any calls, where a tracked order has an id that is not tracked, cancelling a market or a
  -- group takes exactly those of its orders out of the tracker that the exchange confirms, and
  -- leaves every other order as it is.
  pub cancel_market_lem :
      ⦃o : DecimalOps⦄ (t : OrderTracker) (k i : Key)
      → IsReached t
      → (lookup i (cancel_market cancel_order t k).0.orders ≡ (
          if is_order_at market_of k (lookup i t.orders) && confirms i
          then none
          else lookup i t.orders))
        × (lookup i (cancel_group cancel_order t k).0.orders ≡ (
            if is_order_at group_of k (lookup i t.orders) && confirms i
            then none
            else lookup i t.orders))
  unfolding cancel_market cancel_group orders_for_market orders_in_group
  cancel_market_lem t k i h =
      let indexed = IsReached-IsIndexed t h in
      (
        rw (← indexed.market_index k i) (lookup-cancel_listed t (members k t.by_market) i),
        rw (← indexed.group_index k i) (lookup-cancel_listed t (members k t.by_group) i),
      )

  lookup-remove_each :
      (t : OrderTracker) (ids : List Key) (j : Key)
      → lookup j (remove_each cancel_order t ids).orders
        ≡ (if contains j ids then none else lookup j t.orders)
  unfolding remove_each
  lookup-remove_each t [] j = refl
  lookup-remove_each t (i ∷ ids) j =
      ground (arith, lookup-remove_each (remove t i) ids j, lookup-remove t i j)

  contains_all :
      (m : Dict RestingOrder) (i : Key) (x : RestingOrder)
      → lookup i m ≡ some x
      → contains x.order_id (map (λ (y : RestingOrder). y.order_id) (values m)) ≡ true
  contains_all [] i x h = cc
  contains_all ((j, y) ∷ m) i x h = ground (arith, contains_all m i x)

  -- When the bulk request fails, each tracked order is cancelled by itself: those that the exchange
  -- confirms leave the tracker, and no others. When it is answered, exactly the orders leave that
  -- the answer names. Both hold after any calls, where a tracked order has an id that is not
  -- tracked, and of a tracker that is not empty.
  pub cancel_all_lem :
      ⦃o : DecimalOps⦄ (t : OrderTracker) (i : Key) (error : Key) (response : CancelOrdersResponse)
      → IsReached t
      → is_empty (all_orders t) ≡ false
      → (lookup i (cancel_all cancel_order t (no_reply error)).0.orders
          ≡ (if confirms i then none else lookup i t.orders))
        × (lookup i (cancel_all cancel_order t (replied response)).0.orders
            ≡ (if contains i response.canceled then none else lookup i t.orders))
  unfolding cancel_all
  cancel_all_lem t i error response h some_tracked = (
    rw some_tracked
        (lookup-cancel_each t (all_orders t) i ∙ each_tracked (Option-cases (lookup i t.orders))),
    rw some_tracked (lookup-remove_each t response.canceled i),
  )
    where
      each_tracked :
          (lookup i t.orders ≡ none) ⊎ ((x : RestingOrder) × (lookup i t.orders ≡ some x))
          → (if contains i (all_orders t) && confirms i then none else lookup i t.orders)
            ≡ (if confirms i then none else lookup i t.orders)
      each_tracked (inl missing) = ground arith
      each_tracked (inr (x, e)) =
          let id : x.order_id ≡ i = (IsReached-IsIndexed t h).keyed i x e in
          let listed : contains x.order_id (all_orders t) ≡ true =
            unfold all_orders in contains_all t.orders i x e in
          ground (arith, id, listed)
