-- ===== src/Ledger/Orders/Updates.antt =====
-- What the updates of `OpenOrders` do to every order, on each branch.
use poly_bot.Prelude.{ℕ, ◌≡◌, refl, true, false, some, arith, if◌then◌else◌, ◌==◌}
use poly_bot.Prelude.Dict.{lookup-adjust}
use poly_bot.Decimal.{Decimal, DecimalOps}
use poly_bot.Types.{Key, OrderState, BotError, ok, err}
use poly_bot.Ledger.Orders.{
  TrackedOrder, OpenOrders, get_by_local_id, get_by_order_id, transition, apply_fill, adjust_copy,
  filled_by, copied_from, moved, can_transition_to,
}
use poly_bot.Ledger.Orders.Coherence.{IsCoherent, count_state_indices}

-- A transition that the table has returns the old state and moves the order and its copy to the new
-- state, and changes no other order, in coherent indices and for an order that has an exchange id.
pub transition_lem :
    (s : OpenOrders) (l k j : Key) (t : OrderState) (now : ℕ) {x : TrackedOrder}
    → IsCoherent s
    → get_by_local_id s l ≡ some x
    → x.order_id ≡ some k
    → can_transition_to x.state t ≡ true
    → let (s', r) = transition s l t now in
      (r ≡ ok x.state)
      × (get_by_local_id s' j ≡ (if l == j then some (moved t now x) else get_by_local_id s j))
      × (get_by_order_id s' j ≡ (if k == j then some (moved t now x) else get_by_order_id s j))
unfolding transition get_by_local_id get_by_order_id
transition_lem s l k j t now {x} c found e valid =
    rw (found, transition)
      (rw valid (
        rw ((count_state_indices t _).0, (count_state_indices t _).1)
          (rw (e, adjust_copy)
            (
              refl,
              ground (arith, lookup-adjust l j (moved t now) s.by_local_id),
              ground (arith, c.copied l k x found e, lookup-adjust k j (moved t now) s.by_order_id),
            ))))

-- A transition that the table lacks, or of an unknown order, is refused and changes nothing.
pub transition_refused :
    (s : OpenOrders) (l : Key) (t : OrderState) (now : ℕ) {x : TrackedOrder}
    → get_by_local_id s l ≡ some x
    → can_transition_to x.state t ≡ false
    → transition s l t now ≡ (s, err (BotError.invalid_transition x.state t))
unfolding transition get_by_local_id
transition_refused s l t now found invalid = rw (found, transition) (rw invalid)

module _ ⦃o : DecimalOps⦄ where
  -- A fill returns what then remains, updates the order and its copy alike, and changes no other
  -- order, in coherent indices and for an order that has an exchange id.
  pub apply_fill_lem :
      (s : OpenOrders) (l k j : Key) (size : Decimal) (now : ℕ) {x : TrackedOrder}
      → IsCoherent s
      → get_by_local_id s l ≡ some x
      → x.order_id ≡ some k
      → let (s', r) = apply_fill s l size now in
        let x' = filled_by size now x in
        (r ≡ ok x'.remaining_size)
        × (get_by_local_id s' j ≡ (if l == j then some x' else get_by_local_id s j))
        × (get_by_order_id s' j ≡ (if k == j then some x' else get_by_order_id s j))
  unfolding apply_fill get_by_local_id get_by_order_id
  apply_fill_lem s l k j size now {x} c found e =
      rw (found, apply_fill)
        (rw (e, adjust_copy)
          (
            refl,
            ground (arith, lookup-adjust l j (filled_by size now) s.by_local_id),
            ground (
              arith,
              c.copied l k x found e,
              lookup-adjust k j (copied_from (filled_by size now x)) s.by_order_id,
            ),
          ))
