-- ===== src/Execution/OrderTracker/Queries.antt =====
-- What the tracker answers, against its orders alone, and its counts.
use poly_bot.Prelude.{
  ◌+◌, ◌≡◌, refl, Bool, true, ◌&&◌, none, some, List, [], ◌∷◌, any, length, contains, arith, u64,
  ◌==◌, Option-cases, Bool-cases, inl, inr,
}
use poly_bot.Prelude.Dict.{
  values, Dict, lookup, adjust, HasDistinctKeys, length-insert, length-erase, length-adjust,
  insert-HasDistinctKeys, erase-HasDistinctKeys, adjust-HasDistinctKeys,
}
use poly_bot.Decimal.{Decimal, DecimalOps, eq}
use poly_bot.Types.{Key, Side, side_eq}
use poly_bot.Execution.OrderTracker.{
  RestingOrder, OrderTracker, members, new, track, remove, on_fill, filled_more, is_filled,
  tracks_one, has_order_at, active_count,
}
use poly_bot.Execution.OrderTracker.Indices.{
  IsIndexed, tracked, removed, filled, at_start, IsReached, IsReached-IsIndexed,
}

-- Some id of the list has an order that passes.
any_found :
    (orders : Dict RestingOrder) (p : RestingOrder → Bool) (ids : List Key) (i : Key)
    (x : RestingOrder)
    → contains i ids ≡ true
    → lookup i orders ≡ some x
    → p x ≡ true
    → tracks_one orders p ids ≡ true
any_found orders p [] i x h e q = cc
any_found orders p (j ∷ ids) i x h e q = ground (arith, any_found orders p ids i x)

-- An order of the map that passes, under its id.
abbrev pub Passing : Dict RestingOrder → (RestingOrder → Bool) → List Key → Type 0
Passing orders p ids =
    (i : Key) × (x : RestingOrder) × (contains i ids ≡ true)
    × (lookup i orders ≡ some x)
    × (p x ≡ true)

found_any :
    (orders : Dict RestingOrder) (p : RestingOrder → Bool) (ids : List Key)
    → tracks_one orders p ids ≡ true
    → Passing orders p ids
found_any orders p [] h = cc
found_any orders p (j ∷ ids) h = elim (Bool-cases (tracks_one orders p ids)) [
  | inl later ↦
      let (i, x, c, e, q) = found_any orders p ids later in (i, x, ground (arith, c), e, q)
  | inr fails ↦ elim (Option-cases (lookup j orders)) [
    | inl missing ↦ ground arith
    | inr (y, found) ↦ (j, y, ground arith, found, ground arith)
  ]
]

in_values :
    (orders : Dict RestingOrder) (p : RestingOrder → Bool) (i : Key) (x : RestingOrder)
    → lookup i orders ≡ some x
    → p x ≡ true
    → any p (values orders) ≡ true
in_values [] p i x e q = cc
in_values ((j, y) ∷ orders) p i x e q = ground (arith, in_values orders p i x)

values_in :
    (orders : Dict RestingOrder) (p : RestingOrder → Bool)
    → HasDistinctKeys orders
    → any p (values orders) ≡ true
    → (i : Key) × (x : RestingOrder) × (lookup i orders ≡ some x) × (p x ≡ true)
values_in [] p d h = cc
values_in ((j, y) ∷ orders) p d h = elim (Bool-cases (p y)) [
  | inl here ↦ (j, y, ground arith, here)
  | inr fails ↦
      let (i, x, e, q) = values_in orders p d.1 (ground arith) in (i, x, ground (arith, e, d.0), q)
]

both_ways : (a b : Bool) → (a ≡ true → b ≡ true) → (b ≡ true → a ≡ true) → a ≡ b
both_ways a b f g = ground arith

-- What a token's index finds is what a scan of all orders finds.
module _ (t : OrderTracker) (k : Key) (p : RestingOrder → Bool) where
  abbrev on_token : RestingOrder → Bool
  on_token x = x.token_id == k && p x

  index_scan :
      IsIndexed t
      → tracks_one t.orders p (members k t.by_token) ≡ true
      → any on_token (values t.orders) ≡ true
  index_scan h e =
      let (i, x, c, found, q) = found_any t.orders p (members k t.by_token) e in
      in_values t.orders on_token i x found (ground (arith, h.token_index k i))

  scan_index :
      IsIndexed t
      → HasDistinctKeys t.orders
      → any on_token (values t.orders) ≡ true
      → tracks_one t.orders p (members k t.by_token) ≡ true
  scan_index h d e =
      let (i, x, found, q) = values_in t.orders on_token d e in
      any_found t.orders p (members k t.by_token) i x (ground (arith, h.token_index k i)) found
        (ground (arith, q))

module _ ⦃o : DecimalOps⦄ where
  -- Ids are not repeated, and the orders that are out are those tracked less those completed.
  pub record IsCounted (t : OrderTracker) : Type 0 where
    pub distinct : HasDistinctKeys t.orders
    pub completed : u64 (t.total_completed + length t.orders) ≡ t.total_tracked

  remove-IsCounted : (t : OrderTracker) (i : Key) → IsCounted t → IsCounted (remove t i)
  unfolding remove
  remove-IsCounted t i h = elim (Option-cases (lookup i t.orders)) [
    | inl missing ↦ rw (missing, remove) h
    | inr (x, found) ↦
        rw (found, remove)
          (record {
            distinct = erase-HasDistinctKeys i t.orders h.distinct;
            completed =
                ground (arith, h.completed, length-erase i t.orders h.distinct (ground arith));
          })
  ]

  filled-IsCounted :
      (t : OrderTracker) (i : Key) (size : Decimal)
      → IsCounted t
      → IsCounted (record t { orders = adjust i (filled_more size) t.orders })
  filled-IsCounted t i size h = record {
    distinct = adjust-HasDistinctKeys i (filled_more size) t.orders h.distinct;
    completed = ground (arith, h.completed, length-adjust i (filled_more size) t.orders);
  }

  track-IsCounted :
      (t : OrderTracker) (x : RestingOrder)
      → lookup x.order_id t.orders ≡ none
      → IsCounted t
      → IsCounted (track t x)
  unfolding track
  track-IsCounted t x fresh h = record {
    distinct = insert-HasDistinctKeys x.order_id x t.orders h.distinct;
    completed = ground (arith, h.completed, length-insert x.order_id x t.orders);
  }

  on_fill-IsCounted :
      (t : OrderTracker) (i : Key) (size : Decimal) → IsCounted t → IsCounted (on_fill t i size).0
  unfolding on_fill
  on_fill-IsCounted t i size h = elim (Option-cases (lookup i t.orders)) [
    | inl missing ↦ rw (missing, on_fill) h
    | inr (x, found) ↦
        rw (found, on_fill)
          (elim (Bool-cases (is_filled (filled_more size x))) [
            | inl full ↦
                rw (full, on_fill)
                  (remove-IsCounted (record t { orders = adjust i (filled_more size) t.orders }) i
                    (filled-IsCounted t i size h))
            | inr partial ↦ rw (partial, on_fill) (filled-IsCounted t i size h)
          ])
  ]

  new-IsCounted : IsCounted new
  unfolding new
  new-IsCounted = record { distinct = tt; completed = refl }

  IsReached-IsCounted : (t : OrderTracker) → IsReached t → IsCounted t
  IsReached-IsCounted _ at_start = new-IsCounted
  IsReached-IsCounted _ (tracked {t} x fresh h) =
      track-IsCounted t x fresh (IsReached-IsCounted t h)
  IsReached-IsCounted _ (removed {t} i h) = remove-IsCounted t i (IsReached-IsCounted t h)
  IsReached-IsCounted _ (filled {t} i size h) = on_fill-IsCounted t i size (IsReached-IsCounted t h)

  -- After any calls as above, the number of active orders and of completed ones add up to the
  -- number ever tracked, in a counter of 64 bits.
  pub active_count_lem :
      (t : OrderTracker) → IsReached t → u64 (t.total_completed + active_count t) ≡ t.total_tracked
  unfolding active_count
  active_count_lem t h = (IsReached-IsCounted t h).completed

  -- After any calls, where a tracked order has an id that is not tracked, the search through the
  -- index of a token for an order at a side and a price answers as a scan of all tracked orders
  -- does.
  pub has_order_at_lem :
      (t : OrderTracker) (k : Key) (side : Side) (price : Decimal)
      → IsReached t
      → has_order_at t k side price
        ≡ any
            (λ (x : RestingOrder). x.token_id == k && (side_eq x.side side && eq x.price price))
            (values t.orders)
  unfolding has_order_at
  has_order_at_lem t k side price h =
      let p = λ (x : RestingOrder). side_eq x.side side && eq x.price price in
      both_ways _ _ (index_scan t k p (IsReached-IsIndexed t h))
        (scan_index t k p (IsReached-IsIndexed t h) (IsReached-IsCounted t h).distinct)
