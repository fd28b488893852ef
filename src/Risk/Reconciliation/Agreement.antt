-- ===== src/Risk/Reconciliation/Agreement.antt =====
-- When a reconciliation finds nothing, and when it succeeds.
use poly_bot.Prelude.{
  ◌≡◌, refl, Bool, true, false, not, ◌&&◌, ◌||◌, none, some, List, [], ◌∷◌, ◌++◌, filter, any, all,
  is_empty, contains, arith, Bool-cases, Option-cases, inl, inr,
}
use poly_bot.Prelude.Dict.{values}
use poly_bot.Types.{Key, OrderState}
use poly_bot.Ledger.Orders.{
  TrackedOrder, OpenOrders, all_open, active_orders, is_open, is_active, is_terminal,
}
use poly_bot.Risk.Reconciliation.{
  ServerOrder, Discrepancy, parse_sdk_status, is_critical, is_filled_state, is_live, local_ids,
  server_ids, unknown_remote, unknown_local, has_order_id, find_local, mismatches, reconcile,
}

abbrev pub is_matched : ServerOrder → Bool
is_matched s = is_filled_state (parse_sdk_status s.status)

abbrev pub is_listed : List Key → TrackedOrder → Bool
is_listed listed x = elim x.order_id [ none ↦ true | some i ↦ contains i listed ]

-- The two sides know the same orders, and the exchange has filled none of them.
abbrev pub agrees : List ServerOrder → List TrackedOrder → Bool
agrees server_orders locals =
    all (λ s. contains s.id (local_ids locals) && not (is_matched s)) server_orders
    && all (is_listed (server_ids server_orders)) locals

abbrev pub are_active : List TrackedOrder → Bool
are_active = all (λ (x : TrackedOrder). is_active x.state)

is_empty-append : {A : Type 0} (xs ys : List A) → is_empty (xs ++ ys) ≡ (is_empty xs && is_empty ys)
is_empty-append [] ys = refl
is_empty-append (x ∷ xs) ys = refl

remote_empty :
    (known : List Key) (ss : List ServerOrder)
    → is_empty (unknown_remote known ss) ≡ all (λ (s : ServerOrder). contains s.id known) ss
unfolding unknown_remote
remote_empty known [] = refl
remote_empty known (s ∷ ss) = ground (arith, remote_empty known ss)

local_empty :
    (listed : List Key) (xs : List TrackedOrder)
    → are_active xs ≡ true
    → is_empty (unknown_local listed xs) ≡ all (is_listed listed) xs
unfolding unknown_local is_open
local_empty listed [] h = refl
local_empty listed (x ∷ xs) h = ground (arith, local_empty listed xs)

active_open : (s : OrderState) → is_active s ≡ true → is_filled_state s ≡ false
unfolding is_active is_terminal
active_open s h = ground arith

in_rest :
    (i : Key) (x : TrackedOrder) (xs : List TrackedOrder)
    → has_order_id i x ≡ false
    → contains i (local_ids (x ∷ xs)) ≡ true
    → contains i (local_ids xs) ≡ true
unfolding local_ids
in_rest i x xs h k = elim (Option-cases x.order_id) [
  | inl none_yet ↦ ground arith
  | inr (j, e) ↦ ground arith
]

find_some :
    (i : Key) (xs : List TrackedOrder)
    → contains i (local_ids xs) ≡ true
    → are_active xs ≡ true
    → (x : TrackedOrder) × (find_local i xs ≡ some x) × (is_filled_state x.state ≡ false)
unfolding find_local local_ids
find_some i [] h k = cc
find_some i (x ∷ xs) h k = elim (Bool-cases (has_order_id i x)) [
  | inl here ↦ (x, rw here refl, active_open x.state (ground arith))
  | inr elsewhere ↦ rw elsewhere (find_some i xs (in_rest i x xs elsewhere h) (ground arith))
]

mismatch_empty :
    (xs : List TrackedOrder) (ss : List ServerOrder)
    → are_active xs ≡ true
    → all (λ (s : ServerOrder). contains s.id (local_ids xs)) ss ≡ true
    → is_empty (mismatches xs ss) ≡ all (λ s. not (is_matched s)) ss
unfolding mismatches
mismatch_empty xs [] h k = refl
mismatch_empty xs (s ∷ ss) h k =
    let (x, e, f) = find_some s.id xs (ground arith) h in ground (arith, mismatch_empty xs ss, e, f)

active-filter :
    (xs : List TrackedOrder)
    → are_active (filter (λ (x : TrackedOrder). is_active x.state) xs) ≡ true
active-filter [] = refl
active-filter (x ∷ xs) = ground (arith, active-filter xs)

all_and :
    (p q : ServerOrder → Bool) (ss : List ServerOrder)
    → all (λ s. p s && q s) ss ≡ (all p ss && all q ss)
all_and p q [] = refl
all_and p q (s ∷ ss) = ground (arith, all_and p q ss)

agrees_lem :
    (server_orders : List ServerOrder) (locals : List TrackedOrder)
    → are_active locals ≡ true
    → (is_empty (unknown_remote (local_ids locals) server_orders)
        && (is_empty (unknown_local (server_ids server_orders) locals)
            && is_empty (mismatches locals server_orders)))
      ≡ agrees server_orders locals
agrees_lem ss xs h =
    let known : ServerOrder → Bool = λ s. contains s.id (local_ids xs) in
    elim (Bool-cases (all known ss)) [
      | inl k ↦
          rw
            (
              remote_empty (local_ids xs) ss,
              local_empty (server_ids ss) xs h,
              mismatch_empty xs ss h k,
              all_and known (λ s. not (is_matched s)) ss,
            )
            (ground arith)
      | inr k ↦
          rw (remote_empty (local_ids xs) ss, all_and known (λ s. not (is_matched s)) ss)
            (rw k refl)
    ]

-- A reconciliation finds nothing exactly when the exchange lists only orders that are known here
-- and has filled none of them, and lists each active order here that has an exchange id and is
-- open.
pub reconcile_lem :
    (server_orders : List ServerOrder) (orders : OpenOrders)
    → is_empty (reconcile server_orders orders).discrepancies
      ≡ agrees server_orders (all_open orders)
unfolding reconcile all_open active_orders
reconcile_lem ss orders =
    let locals = all_open orders in
    let remote = unknown_remote (local_ids locals) ss in
    let local = unknown_local (server_ids ss) locals in
    rw
      (
        is_empty-append remote (local ++ mismatches locals ss),
        is_empty-append local (mismatches locals ss),
      )
      (agrees_lem ss locals (active-filter (values orders.by_local_id)))

-- A local order that the exchange lists, or that is not live there.
abbrev pub is_accounted : List Key → TrackedOrder → Bool
is_accounted listed x = is_listed listed x || not (is_live x.state)

any-append :
    (p : Discrepancy → Bool) (xs ys : List Discrepancy) → any p (xs ++ ys) ≡ (any p xs || any p ys)
any-append p [] ys = refl
any-append p (x ∷ xs) ys = ground (arith, any-append p xs ys)

remote_critical :
    (known : List Key) (ss : List ServerOrder)
    → any is_critical (unknown_remote known ss) ≡ false
    → all (λ (s : ServerOrder). contains s.id known) ss ≡ true
unfolding unknown_remote is_critical
remote_critical known [] h = refl
remote_critical known (s ∷ ss) h = ground (arith, remote_critical known ss)

local_critical :
    (listed : List Key) (xs : List TrackedOrder)
    → are_active xs ≡ true
    → any is_critical (unknown_local listed xs) ≡ false
    → all (is_accounted listed) xs ≡ true
unfolding unknown_local is_critical is_open
local_critical listed [] h k = refl
local_critical listed (x ∷ xs) h k = elim (Option-cases x.order_id) [
  | inl unsent ↦ ground (arith, local_critical listed xs)
  | inr (i, e) ↦ ground (arith, local_critical listed xs)
]

-- A reconciliation that succeeds knows every order of the exchange, and the exchange lists every
-- local order that has an exchange id and is acknowledged or partially filled.
pub success_lem :
    (server_orders : List ServerOrder) (orders : OpenOrders)
    → (reconcile server_orders orders).success ≡ true
    → (all (λ (s : ServerOrder). contains s.id (local_ids (all_open orders))) server_orders ≡ true)
      × (all (is_accounted (server_ids server_orders)) (all_open orders) ≡ true)
unfolding reconcile all_open active_orders
success_lem ss orders h =
    let locals = all_open orders in
    let remote = unknown_remote (local_ids locals) ss in
    let local = unknown_local (server_ids ss) locals in
    let split = any-append is_critical remote (local ++ mismatches locals ss) in
    let split' = any-append is_critical local (mismatches locals ss) in
    (
      remote_critical (local_ids locals) ss (ground (arith, split)),
      local_critical (server_ids ss) locals (active-filter (values orders.by_local_id))
          (ground (arith, split, split')),
    )
