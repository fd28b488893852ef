-- ===== src/Risk/Reconciliation.antt =====
-- src/risk/reconciliation.rs: the comparison of the exchange's open orders with the ledger's. The
-- client's request of a page is the parameter `fetch`, and texts are keys; a failure has a text.
pub mod Pages
pub mod Agreement
mod Examples
use poly_bot.Prelude.{
  ℕ, zero, suc, Bool, true, false, not, ◌&&◌, ◌||◌, Option, none, some, List, [], ◌∷◌, ◌++◌, map,
  any, length, contains, ◌==◌, if◌then◌else◌,
}
use poly_bot.Decimal.{Decimal, lt}
use poly_bot.Types.{Key, OrderState, acked, partially_filled, filled, cancelled, rejected, unknown}
use poly_bot.Ledger.Orders.{TrackedOrder, OpenOrders, all_open, is_open}
use poly_bot.Risk.CircuitBreaker.{CircuitBreaker, record_reconciliation_failure}

-- The client's types, with the fields that the code reads.
pub data OrderStatusType : Type 0 where
  live matched canceled delayed unmatched other_status : OrderStatusType

pub record ServerOrder : Type 0 where
  pub id : Key
  pub status : OrderStatusType
  pub size_matched : Decimal

pub record Page : Type 0 where
  pub data_of : List ServerOrder
  pub next_cursor : Key

pub data Response : Type 0 where
  page : Page → Response
  failure : Key → Response

-- the empty cursor, and the text that marks the last page
abbrev pub empty_cursor : Key
empty_cursor = 0

abbrev pub last_cursor : Key
last_cursor = 1

-- src/execution/state_machine.rs
pub data Discrepancy : Type 0 where
  local_not_remote : (local_id : Key) (order_id : Option Key) (state : OrderState) → Discrepancy
  remote_not_local : (order_id : Key) → Discrepancy
  state_mismatch :
      (order_id : Key) (local_state : OrderState) (remote_filled local_filled : Decimal)
      → Discrepancy

pub record ReconciliationResult : Type 0 where
  pub server_order_count : ℕ
  pub local_order_count : ℕ
  pub discrepancies : List Discrepancy
  pub success : Bool

pub data ReconciliationMessage : Type 0 where
  completed : ReconciliationResult → ReconciliationMessage
  failed : Key → ReconciliationMessage
  discrepancy_detected : Discrepancy → ReconciliationMessage

unfoldable pub parse_sdk_status : OrderStatusType → OrderState
parse_sdk_status live = acked
parse_sdk_status matched = filled
parse_sdk_status canceled = cancelled
parse_sdk_status delayed = acked
parse_sdk_status unmatched = rejected
parse_sdk_status other_status = unknown

abbrev pub is_live : OrderState → Bool
is_live acked = true
is_live partially_filled = true
is_live _ = false

unfoldable pub is_critical : Discrepancy → Bool
is_critical (remote_not_local order_id) = true
is_critical (local_not_remote local_id order_id state) = is_live state
is_critical (state_mismatch order_id local_state remote_filled local_filled) =
    lt local_filled remote_filled && is_live local_state

abbrev pub is_filled_state : OrderState → Bool
is_filled_state filled = true
is_filled_state _ = false

-- the exchange's ids of the local orders
unfoldable pub local_ids : List TrackedOrder → List Key
local_ids [] = []
local_ids (x ∷ xs) = let rest = local_ids xs in elim x.order_id [ none ↦ rest | some i ↦ i ∷ rest ]

abbrev pub server_id : ServerOrder → Key
server_id s = s.id

abbrev pub server_ids : List ServerOrder → List Key
server_ids = map server_id

-- the orders of the exchange that are not known here
unfoldable pub unknown_remote : (known : List Key) → List ServerOrder → List Discrepancy
unknown_remote known [] = []
unknown_remote known (s ∷ ss) =
    let rest = unknown_remote known ss in
    if not (contains s.id known) then remote_not_local s.id ∷ rest else rest

-- the local orders that the exchange does not list
unfoldable pub unknown_local : (listed : List Key) → List TrackedOrder → List Discrepancy
unknown_local listed [] = []
unknown_local listed (x ∷ xs) =
    let rest = unknown_local listed xs in
    elim x.order_id [
      | none ↦ rest
      | some i ↦
          if not (contains i listed) && is_open x.state
          then local_not_remote x.local_id (some i) x.state ∷ rest
          else rest
    ]

abbrev pub has_order_id : Key → TrackedOrder → Bool
has_order_id i x = elim x.order_id [ none ↦ false | some j ↦ i == j ]

-- `iter().find(...)`
unfoldable pub find_local : Key → List TrackedOrder → Option TrackedOrder
find_local i [] = none
find_local i (x ∷ xs) = if has_order_id i x then some x else find_local i xs

abbrev pub mismatch : ServerOrder → TrackedOrder → List Discrepancy → List Discrepancy
mismatch s x rest =
    if is_filled_state (parse_sdk_status s.status) && not (is_filled_state x.state)
    then state_mismatch s.id x.state s.size_matched x.filled_size ∷ rest
    else rest

-- the orders that the exchange has filled and that are open here
unfoldable pub mismatches : List TrackedOrder → List ServerOrder → List Discrepancy
mismatches locals [] = []
mismatches locals (s ∷ ss) =
    let rest = mismatches locals ss in
    elim (find_local s.id locals) [ none ↦ rest | some x ↦ mismatch s x rest ]

-- what `reconcile_once` makes of all pages
unfoldable pub reconcile : List ServerOrder → OpenOrders → ReconciliationResult
reconcile server_orders orders =
    let locals = all_open orders in
    let discrepancies =
      unknown_remote (local_ids locals) server_orders
      ++ (unknown_local (server_ids server_orders) locals ++ mismatches locals server_orders) in
    record {
      server_order_count = length server_orders;
      local_order_count = length locals;
      discrepancies = discrepancies;
      success = not (any is_critical discrepancies);
    }

-- What the loop over the pages comes to, with `unfinished` for the fuel at its end.
pub data Fetched : Type 0 where
  fetched : List ServerOrder → Fetched
  unfetched : Key → Fetched
  unfinished : Fetched

module _ (fetch : Option Key → Response) where
  abbrev pub and_then : List ServerOrder → Fetched → Fetched
  and_then orders (fetched rest) = fetched (orders ++ rest)
  and_then orders (unfetched e) = unfetched e
  and_then orders unfinished = unfinished

  abbrev pub is_last : Key → Bool
  is_last cursor = cursor == empty_cursor || cursor == last_cursor

  unfoldable pub fetch_all : (fuel : ℕ) → (cursor : Option Key) → Fetched
  fetch_all zero cursor = unfinished
  fetch_all (suc fuel) cursor = elim (fetch cursor) [
    | failure e ↦ unfetched e
    | page p ↦
        if is_last p.next_cursor
        then fetched p.data_of
        else and_then p.data_of (fetch_all fuel (some p.next_cursor))
  ]

-- `Result<ReconciliationResult, String>`
pub data Outcome : Type 0 where
  reconciled : ReconciliationResult → Outcome
  error : Key → Outcome

-- What `reconcile_once` returns once the pages are there.
abbrev pub outcome_of : OpenOrders → Fetched → Option Outcome
outcome_of orders (fetched server_orders) = some (reconciled (reconcile server_orders orders))
outcome_of orders (unfetched e) = some (error e)
outcome_of orders unfinished = none

unfoldable pub reconcile_once : (Option Key → Response) → (fuel : ℕ) → OpenOrders → Option Outcome
reconcile_once fetch fuel orders = outcome_of orders (fetch_all fetch fuel none)

-- One turn of `run`: the breaker and the messages that are sent.
unfoldable pub turn : CircuitBreaker → Outcome → ℕ → CircuitBreaker × List ReconciliationMessage
turn cb (reconciled result) now =
    (cb, map discrepancy_detected result.discrepancies ++ completed result ∷ [])
turn cb (error e) now = (record_reconciliation_failure e now cb, failed e ∷ [])
