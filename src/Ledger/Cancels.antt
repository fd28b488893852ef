-- ===== src/Ledger/Cancels.antt =====
-- What `apply_server_cancel` of the ledger does.
use poly_bot.Prelude.{
  ℕ, ◌≡◌, refl, inl, inr, true, false, some, arith, Bool-cases, Option-cases, if◌then◌else◌,
  ==_refl,
}
use poly_bot.Decimal.{Decimal, nought, lt, ◌≤ℤ◌, min, DecimalOps, IsExact, exact, sub}
use poly_bot.Types.{Key, OrderState, cancelled}
use poly_bot.Ledger.{Ledger, apply_server_cancel}
use poly_bot.Ledger.Cash
use poly_bot.Ledger.Cash.{CashBalance}
use poly_bot.Ledger.Orders
use poly_bot.Ledger.Orders.{
  TrackedOrder, get_by_order_id, get_by_local_id, is_active, is_open, can_transition_to, moved,
  remaining_notional,
}
use poly_bot.Ledger.Orders.Coherence.{IsCoherent}
use poly_bot.Ledger.Orders.Updates.{transition_lem}
use poly_bot.Ledger.Cash.Conservation.{positive}

-- Every open state may move to cancelled.
open_may_cancel : (s : OrderState) → is_open s ≡ true → can_transition_to s cancelled ≡ true
unfolding is_open is_active can_transition_to
open_may_cancel s h = ground arith

cancelled_not_open : is_open cancelled ≡ false
unfolding is_open is_active
cancelled_not_open = refl

module _ ⦃o : DecimalOps⦄ where
  -- the release in the call, which is made only for a positive amount
  abbrev released : CashBalance → Decimal → CashBalance
  released c amount = if lt nought amount then (Cash.release c amount).0 else c

  released_lem :
      ⦃ex : IsExact⦄ (c : CashBalance) (amount : Decimal)
      → nought ≤ℤ c.reserved
      → (Cash.total (released c amount) ≡ Cash.total c)
        × ((released c amount).reserved ≡ sub c.reserved (min (positive amount) c.reserved))
  unfolding Cash.total Cash.release
  released_lem c amount h = (grind exact, grind exact)

  -- what the call finds, and what it leaves under the exchange id
  cancels_copy :
      (l : Ledger) (k : Key) (now : ℕ) {x : TrackedOrder}
      → IsCoherent l.orders
      → get_by_order_id l.orders k ≡ some x
      → is_open x.state ≡ true
      → get_by_order_id (Orders.transition l.orders x.local_id cancelled now).0 k
        ≡ some (moved cancelled now x)
  unfolding get_by_order_id get_by_local_id
  cancels_copy l k now {x} c found live =
      let (here, id) = c.copies k x found in
      ground (
        arith,
        transition_lem l.orders x.local_id k k cancelled now c here id
            (open_may_cancel x.state live),
        ==_refl k,
      )

  -- A cancellation that the server reports is applied once: a repeated report finds nothing to
  -- correct and changes nothing.
  pub server_cancel_once :
      (l : Ledger) (k : Key) (now later : ℕ)
      → IsCoherent l.orders
      → let l' = (apply_server_cancel l k now).0 in apply_server_cancel l' k later ≡ (l', false)
  unfolding apply_server_cancel
  server_cancel_once l k now later c = elim (Option-cases (get_by_order_id l.orders k)) [
    | inl missing ↦ ground arith
    | inr (x, found) ↦ elim (Bool-cases (is_open x.state)) [
      | inl live ↦ ground (arith, cancels_copy l k now c found live, cancelled_not_open)
      | inr done ↦ ground arith
    ]
  ]

  -- A cancellation of an open order, in coherent indices and from a reserved balance that is not
  -- negative, moves its unfilled value, as far as it is reserved, back to the available cash, keeps
  -- the total, and marks the order as cancelled, where sums and differences are exact.
  pub server_cancel_lem :
      ⦃ex : IsExact⦄ (l : Ledger) (k : Key) (now : ℕ) {x : TrackedOrder}
      → IsCoherent l.orders
      → nought ≤ℤ l.cash.reserved
      → get_by_order_id l.orders k ≡ some x
      → is_open x.state ≡ true
      → let (l', done) = apply_server_cancel l k now in
        (done ≡ true)
        × (get_by_order_id l'.orders k ≡ some (moved cancelled now x))
        × (Cash.total l'.cash ≡ Cash.total l.cash)
        × (l'.cash.reserved
            ≡ sub l.cash.reserved (min (positive (remaining_notional x)) l.cash.reserved))
  unfolding apply_server_cancel
  server_cancel_lem l k now {x} c h found live =
      rw (found, apply_server_cancel)
        (rw live (
          refl,
          cancels_copy l k now c found live,
          (released_lem l.cash (remaining_notional x) h).0,
          (released_lem l.cash (remaining_notional x) h).1,
        ))
