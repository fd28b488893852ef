-- ===== src/Execution/Cancellation.antt =====
-- src/execution/cancellation.rs: `CancellationManager` over the tracker of resting orders. What the
-- client answers to the cancellation of an order is the parameter `cancel_order`, and its answer to
-- the bulk request an argument.
pub mod Effects
mod Examples
use poly_bot.Prelude.{
  false, true, ℕ, suc, ◌+◌, Bool, Option, none, some, List, [], ◌∷◌, length, is_empty, ◌==◌,
  if◌then◌else◌,
}
use poly_bot.Prelude.Dict.{Dict, lookup}
use poly_bot.Types.{Key}
use poly_bot.Execution.OrderTracker.{
  OrderTracker, remove, orders_for_market, stale_orders, all_orders, orders_in_group,
}

-- The fields of the client's response that the code reads.
pub record CancelOrdersResponse : Type 0 where
  pub canceled : List Key
  pub not_canceled : Dict Key

-- `Result<CancelOrdersResponse, _>`
pub data Reply : Type 0 where
  replied : CancelOrdersResponse → Reply
  no_reply : (error : Key) → Reply

-- `Result<(), String>`, with the texts of both errors
pub data CancelResult : Type 0 where
  done : CancelResult
  not_cancelled : (reason : Key) → CancelResult
  failed_to_cancel : (order_id error : Key) → CancelResult

abbrev pub is_done : CancelResult → Bool
is_done done = true
is_done _ = false

module _ (cancel_order : Key → Reply) where
  abbrev pub verdict : Key → Reply → CancelResult
  verdict order_id (no_reply error) = failed_to_cancel order_id error
  verdict order_id (replied response) = elim (lookup order_id response.not_canceled) [
    | some reason ↦ not_cancelled reason
    | none ↦ done
  ]

  unfoldable pub cancel : OrderTracker → Key → OrderTracker × CancelResult
  cancel t order_id =
      let result = verdict order_id (cancel_order order_id) in
      (if is_done result then remove t order_id else t, result)

  -- The loop of every bulk method, with the number of orders that are cancelled.
  unfoldable pub cancel_each : OrderTracker → List Key → OrderTracker × ℕ
  cancel_each t [] = (t, 0)
  cancel_each t (i ∷ ids) =
      let (t', result) = cancel t i in
      let (t'', cancelled) = cancel_each t' ids in
      (t'', if is_done result then suc cancelled else cancelled)

  -- an early return of 0 for no orders
  abbrev pub cancel_listed : OrderTracker → List Key → OrderTracker × ℕ
  cancel_listed t ids = if is_empty ids then (t, 0) else cancel_each t ids

  unfoldable pub cancel_market : OrderTracker → Key → OrderTracker × ℕ
  cancel_market t market_id = cancel_listed t (orders_for_market t market_id)

  unfoldable pub cancel_stale : OrderTracker → (stale_order_ttl now : ℕ) → OrderTracker × ℕ
  cancel_stale t stale_order_ttl now = cancel_listed t (stale_orders t stale_order_ttl now)

  unfoldable pub cancel_group : OrderTracker → Key → OrderTracker × ℕ
  cancel_group t group_id = cancel_listed t (orders_in_group t group_id)

  unfoldable pub remove_each : OrderTracker → List Key → OrderTracker
  remove_each t [] = t
  remove_each t (i ∷ ids) = remove_each (remove t i) ids

  -- The bulk request, and single ones where it fails.
  abbrev pub cancel_bulk : OrderTracker → (tracked : List Key) → Reply → OrderTracker × ℕ
  cancel_bulk t tracked (replied response) =
      (remove_each t response.canceled, length response.canceled)
  cancel_bulk t tracked (no_reply error) = cancel_each t tracked

  unfoldable pub cancel_all : OrderTracker → Reply → OrderTracker × ℕ
  cancel_all t reply =
      let tracked = all_orders t in if is_empty tracked then (t, 0) else cancel_bulk t tracked reply
