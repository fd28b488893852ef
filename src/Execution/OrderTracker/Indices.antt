-- ===== src/Execution/OrderTracker/Indices.antt =====
-- The indices of the tracker list exactly the orders that it tracks, whatever calls are made.
use poly_bot.Prelude.{
  refl, Bool-cases, ◌≡◌, Bool, false, not, ◌&&◌, ◌||◌, Option, none, some, List, [], ◌∷◌, contains,
  arith, ◌==◌, if◌then◌else◌, Option-cases, inl, inr,
}
use poly_bot.Prelude.Dict.{
  Dict, lookup, insert, erase, adjust, lookup-insert, lookup-erase, lookup-adjust,
}
use poly_bot.Types.{Key}
use poly_bot.Execution.OrderTracker.{
  is_filled, filled_more, Decimal, on_fill, track, DecimalOps, remove, OrderTracker, new,
  RestingOrder, Index, members, set_insert, set_remove, index_add, index_remove, add_under,
  remove_under,
}

contains-set_insert :
    (i j : Key) (ids : List Key) → contains j (set_insert i ids) ≡ (j == i || contains j ids)
contains-set_insert i j ids = ground arith

contains-set_remove :
    (i j : Key) (ids : List Key) → contains j (set_remove i ids) ≡ (not (j == i) && contains j ids)
contains-set_remove i j [] = ground arith
contains-set_remove i j (k ∷ ids) = ground (arith, contains-set_remove i j ids)

contains-index_add :
    (k j i n : Key) (idx : Index)
    → contains n (members j (index_add k i idx))
      ≡ (if k == j then n == i || contains n (members j idx) else contains n (members j idx))
unfolding index_add
contains-index_add k j i n idx = ground (
  arith,
  lookup-insert k j (set_insert i (members k idx)) idx,
  contains-set_insert i n (members k idx),
)

contains-index_remove :
    (k j i n : Key) (idx : Index)
    → contains n (members j (index_remove k i idx))
      ≡ (if k == j then not (n == i) && contains n (members j idx) else contains n (members j idx))
unfolding index_remove
contains-index_remove k j i n idx = elim (Option-cases (lookup j idx)) [
  | inl missing ↦ ground (arith, lookup-adjust k j (set_remove i) idx)
  | inr (ids, found) ↦
      ground (arith, lookup-adjust k j (set_remove i) idx, contains-set_remove i n ids)
]

-- An order belongs under a key, or under none.
abbrev pub is_at : Key → Option Key → Bool
is_at k none = false
is_at k (some j) = j == k

abbrev pub is_order_at : (RestingOrder → Option Key) → Key → Option RestingOrder → Bool
is_order_at place k none = false
is_order_at place k (some x) = is_at k (place x)

-- The index has an id under a key exactly when the order of that id belongs there.
abbrev pub Indexes : (RestingOrder → Option Key) → Dict RestingOrder → Index → Type 0
Indexes place orders idx =
    (k i : Key) → contains i (members k idx) ≡ is_order_at place k (lookup i orders)

module _ (place : RestingOrder → Option Key) where
  add-Indexes :
      (orders : Dict RestingOrder) (idx : Index) (x : RestingOrder)
      → Indexes place orders idx
      → lookup x.order_id orders ≡ none
      → Indexes place (insert x.order_id x orders) (add_under (place x) x.order_id idx)
  add-Indexes orders idx x h fresh k i = elim (Option-cases (place x)) [
    | inl nowhere ↦ ground (arith, h k i, lookup-insert x.order_id i x orders)
    | inr (p, at) ↦
        ground (
          arith,
          h k i,
          lookup-insert x.order_id i x orders,
          contains-index_add p k x.order_id i idx,
        )
  ]

  remove-Indexes :
      (orders : Dict RestingOrder) (idx : Index) (i : Key) (x : RestingOrder)
      → Indexes place orders idx
      → lookup i orders ≡ some x
      → Indexes place (erase i orders) (remove_under (place x) i idx)
  remove-Indexes orders idx i x h found k j = elim (Option-cases (place x)) [
    | inl nowhere ↦ ground (arith, h k j, lookup-erase i j orders)
    | inr (p, at) ↦
        ground (arith, h k j, lookup-erase i j orders, contains-index_remove p k i j idx)
  ]

  adjust-Indexes :
      (orders : Dict RestingOrder) (idx : Index) (i : Key) (f : RestingOrder → RestingOrder)
      → Indexes place orders idx
      → ((x : RestingOrder) → place (f x) ≡ place x)
      → Indexes place (adjust i f orders) idx
  adjust-Indexes orders idx i f h same k j = elim (Option-cases (lookup j orders)) [
    | inl missing ↦ ground (arith, h k j, lookup-adjust i j f orders)
    | inr (x, found) ↦ ground (arith, h k j, lookup-adjust i j f orders, same x)
  ]

abbrev pub token_of : RestingOrder → Option Key
token_of x = some x.token_id

abbrev pub market_of : RestingOrder → Option Key
market_of x = some x.market_id

abbrev pub group_of : RestingOrder → Option Key
group_of x = x.group_id

-- Each order stands under its own id, and each index lists exactly the orders that it should.
pub record IsIndexed (t : OrderTracker) : Type 0 where
  pub keyed : (i : Key) (x : RestingOrder) → lookup i t.orders ≡ some x → x.order_id ≡ i
  pub token_index : Indexes token_of t.orders t.by_token
  pub market_index : Indexes market_of t.orders t.by_market
  pub group_index : Indexes group_of t.orders t.by_group

new-IsIndexed : IsIndexed new
unfolding new
new-IsIndexed = record {
  keyed = λ i x h. cc;
  token_index = λ k i. refl;
  market_index = λ k i. refl;
  group_index = λ k i. refl;
}

track-IsIndexed :
    (t : OrderTracker) (x : RestingOrder)
    → IsIndexed t
    → lookup x.order_id t.orders ≡ none
    → IsIndexed (track t x)
unfolding track
track-IsIndexed t x h fresh = record {
  keyed = λ i y e. ground (arith, h.keyed i y, lookup-insert x.order_id i x t.orders);
  token_index = add-Indexes token_of t.orders t.by_token x h.token_index fresh;
  market_index = add-Indexes market_of t.orders t.by_market x h.market_index fresh;
  group_index = add-Indexes group_of t.orders t.by_group x h.group_index fresh;
}

remove-IsIndexed : (t : OrderTracker) (i : Key) → IsIndexed t → IsIndexed (remove t i)
unfolding remove
remove-IsIndexed t i h = elim (Option-cases (lookup i t.orders)) [
  | inl missing ↦ rw (missing, remove) h
  | inr (x, found) ↦
      rw (found, remove)
        (record {
          keyed = λ j y e. ground (arith, h.keyed j y, lookup-erase i j t.orders);
          token_index = remove-Indexes token_of t.orders t.by_token i x h.token_index found;
          market_index = remove-Indexes market_of t.orders t.by_market i x h.market_index found;
          group_index = remove-Indexes group_of t.orders t.by_group i x h.group_index found;
        })
]

module _ ⦃o : DecimalOps⦄ where
  filled-IsIndexed :
      (t : OrderTracker) (i : Key) (size : Decimal)
      → IsIndexed t
      → IsIndexed (record t { orders = adjust i (filled_more size) t.orders })
  filled-IsIndexed t i size h = record {
    keyed = λ j y e. elim (Option-cases (lookup j t.orders)) [
      | inl missing ↦ ground (arith, lookup-adjust i j (filled_more size) t.orders)
      | inr (x, found) ↦
          ground (arith, h.keyed j x found, lookup-adjust i j (filled_more size) t.orders)
    ];
    token_index =
        adjust-Indexes token_of t.orders t.by_token i (filled_more size) h.token_index (λ x. refl);
    market_index =
        adjust-Indexes market_of t.orders t.by_market i (filled_more size) h.market_index
          (λ x. refl);
    group_index =
        adjust-Indexes group_of t.orders t.by_group i (filled_more size) h.group_index (λ x. refl);
  }

  on_fill-IsIndexed :
      (t : OrderTracker) (i : Key) (size : Decimal) → IsIndexed t → IsIndexed (on_fill t i size).0
  unfolding on_fill
  on_fill-IsIndexed t i size h = elim (Option-cases (lookup i t.orders)) [
    | inl missing ↦ rw (missing, on_fill) h
    | inr (x, found) ↦
        rw (found, on_fill)
          (elim (Bool-cases (is_filled (filled_more size x))) [
            | inl full ↦
                rw (full, on_fill)
                  (remove-IsIndexed (record t { orders = adjust i (filled_more size) t.orders }) i
                    (filled-IsIndexed t i size h))
            | inr partial ↦ rw (partial, on_fill) (filled-IsIndexed t i size h)
          ])
  ]

  -- The trackers that calls lead to, where the exchange gives each order its own id.
  pub data IsReached : OrderTracker → Type 0 where
    at_start : IsReached new
    tracked :
        {t : OrderTracker} (x : RestingOrder)
        → lookup x.order_id t.orders ≡ none
        → IsReached t
        → IsReached (track t x)
    removed : {t : OrderTracker} (i : Key) → IsReached t → IsReached (remove t i)
    filled :
        {t : OrderTracker} (i : Key) (size : Decimal) → IsReached t → IsReached (on_fill t i size).0

  -- After any calls, where a tracked order has an id that is not tracked, every order stands under
  -- its own id, and the index by token, by market and by group each lists exactly the tracked
  -- orders of its key.
  pub IsReached-IsIndexed : (t : OrderTracker) → IsReached t → IsIndexed t
  IsReached-IsIndexed _ at_start = new-IsIndexed
  IsReached-IsIndexed _ (tracked {t} x fresh h) =
      track-IsIndexed t x (IsReached-IsIndexed t h) fresh
  IsReached-IsIndexed _ (removed {t} i h) = remove-IsIndexed t i (IsReached-IsIndexed t h)
  IsReached-IsIndexed _ (filled {t} i size h) = on_fill-IsIndexed t i size (IsReached-IsIndexed t h)
