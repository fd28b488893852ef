-- ===== src/Execution/OrderTracker.antt =====
-- src/execution/order_tracker.rs: `OrderTracker`, the maker's resting orders with an index by token,
-- by market and by group. A set of ids is a list without repetitions.
pub mod Indices
pub mod Queries
mod Examples
use poly_bot.Prelude.{
  ℕ, ◌+◌, ◌-◌, Bool, true, false, not, ◌&&◌, Option, none, some, List, [], ◌∷◌, map, filter, any,
  length, contains, u64, ltb, ◌==◌, if◌then◌else◌, unwrap_or,
}
use poly_bot.Prelude.Dict.{Dict, lookup, insert, erase, adjust, values}
use poly_bot.Decimal.{Decimal, nought, eq, le, DecimalOps, add, sub}
use poly_bot.Types.{Key, Side, side_eq}

pub record RestingOrder : Type 0 where
  pub order_id : Key
  pub token_id : Key
  pub market_id : Key
  pub side : Side
  pub price : Decimal
  pub original_size : Decimal
  pub filled_size : Decimal
  pub created_at : ℕ
  pub strategy_name : Key
  pub group_id : Option Key

-- `HashSet::insert` and `HashSet::remove`
abbrev pub set_insert : Key → List Key → List Key
set_insert i ids = if contains i ids then ids else i ∷ ids

abbrev pub set_remove : Key → List Key → List Key
set_remove i = filter (λ j. not (j == i))

abbrev pub Index : Type 0
Index = Dict (List Key)

abbrev pub members : Key → Index → List Key
members k idx = unwrap_or (lookup k idx) []

-- `entry(k).or_default().insert(i)`, and `get_mut(k)` with `remove(i)`
unfoldable pub index_add : Key → Key → Index → Index
index_add k i idx = insert k (set_insert i (members k idx)) idx

unfoldable pub index_remove : Key → Key → Index → Index
index_remove k i idx = adjust k (set_remove i) idx

-- an order without a group is in no group
abbrev pub add_under : Option Key → Key → Index → Index
add_under none i idx = idx
add_under (some k) i idx = index_add k i idx

abbrev pub remove_under : Option Key → Key → Index → Index
remove_under none i idx = idx
remove_under (some k) i idx = index_remove k i idx

pub record OrderTracker : Type 0 where
  pub orders : Dict RestingOrder
  pub by_token : Index
  pub by_market : Index
  pub by_group : Index
  pub total_tracked : ℕ
  pub total_completed : ℕ

unfoldable pub new : OrderTracker
new = record {
  orders = [];
  by_token = [];
  by_market = [];
  by_group = [];
  total_tracked = 0;
  total_completed = 0;
}

unfoldable pub active_count : OrderTracker → ℕ
active_count t = length t.orders

unfoldable pub track : OrderTracker → RestingOrder → OrderTracker
track t x = record {
  orders = insert x.order_id x t.orders;
  by_token = add_under (some x.token_id) x.order_id t.by_token;
  by_market = add_under (some x.market_id) x.order_id t.by_market;
  by_group = add_under x.group_id x.order_id t.by_group;
  total_tracked = u64 (t.total_tracked + 1);
  total_completed = t.total_completed;
}

unfoldable pub remove : OrderTracker → Key → OrderTracker
remove t i = elim (lookup i t.orders) [
  | none ↦ t
  | some x ↦ record {
    orders = erase i t.orders;
    by_token = remove_under (some x.token_id) i t.by_token;
    by_market = remove_under (some x.market_id) i t.by_market;
    by_group = remove_under x.group_id i t.by_group;
    total_tracked = t.total_tracked;
    total_completed = u64 (t.total_completed + 1);
  }
]

-- The orders of a set of ids that are still tracked and pass a test.
abbrev pub tracks_one : Dict RestingOrder → (RestingOrder → Bool) → List Key → Bool
tracks_one orders p ids = any (λ i. elim (lookup i orders) [ none ↦ false | some x ↦ p x ]) ids

unfoldable pub has_order_at : OrderTracker → Key → Side → Decimal → Bool
has_order_at t token_id side price =
    tracks_one t.orders (λ x. side_eq x.side side && eq x.price price) (members token_id t.by_token)

unfoldable pub has_order_for : OrderTracker → Key → Side → Bool
has_order_for t token_id side =
    tracks_one t.orders (λ x. side_eq x.side side) (members token_id t.by_token)

unfoldable pub orders_for_market : OrderTracker → Key → List Key
orders_for_market t market_id = members market_id t.by_market

unfoldable pub orders_for_token : OrderTracker → Key → List Key
orders_for_token t token_id = members token_id t.by_token

unfoldable pub orders_in_group : OrderTracker → Key → List Key
orders_in_group t group_id = members group_id t.by_group

unfoldable pub is_stale : RestingOrder → (max_age now : ℕ) → Bool
is_stale x max_age now = ltb max_age (now - x.created_at)

unfoldable pub stale_orders : OrderTracker → (max_age now : ℕ) → List Key
unfolding is_stale
stale_orders t max_age now =
    map (λ (x : RestingOrder). x.order_id)
      (filter (λ (x : RestingOrder). is_stale x max_age now) (values t.orders))

unfoldable pub all_orders : OrderTracker → List Key
all_orders t = map (λ (x : RestingOrder). x.order_id) (values t.orders)

module _ ⦃o : DecimalOps⦄ where
  unfoldable pub remaining_size : RestingOrder → Decimal
  remaining_size x = sub x.original_size x.filled_size

  unfoldable pub is_filled : RestingOrder → Bool
  is_filled x = le x.original_size x.filled_size

  abbrev pub filled_more : Decimal → RestingOrder → RestingOrder
  filled_more fill_size x = record x { filled_size = add x.filled_size fill_size }

  unfoldable pub on_fill : OrderTracker → Key → Decimal → OrderTracker × Option Decimal
  unfolding is_filled remaining_size
  on_fill t i fill_size = elim (lookup i t.orders) [
    | none ↦ (t, none)
    | some x ↦
        let x' = filled_more fill_size x in
        let t' = record t { orders = adjust i (filled_more fill_size) t.orders } in
        (if is_filled x' then remove t' i else t', some (remaining_size x'))
  ]
