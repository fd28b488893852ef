-- ===== src/Ledger/Orders/Examples.antt =====
-- The life of one order of src/ledger/orders.rs, and the theorems at it.
use poly_bot.Prelude.{◌≡◌, refl, none, some}
use poly_bot.Decimal.{dec, nought, add}
use poly_bot.Decimal.Exact.{exact_ops, exact_ops-IsExact}
use poly_bot.Types.{buy, created_local, signed, submitted, acked, filled}
use poly_bot.Ledger.Orders.{
  TrackedOrder, OpenOrders, new, new_order, add_order, link_order_id, transition, get_by_local_id,
  can_transition_to,
}
use poly_bot.Ledger.Orders.States.{History}
use poly_bot.Ledger.Orders.Coherence.{IsCoherent, Reach, Step, Reach-IsCoherent}
use poly_bot.Ledger.Orders.Cleanup.{sizes_add_up}

abbrev order : TrackedOrder
order = record {
  order_id = none;
  local_id = 7;
  state = created_local;
  token_id = 1;
  side = buy;
  price = dec 5 1;
  original_size = dec 100 0;
  filled_size = nought;
  remaining_size = dec 100 0;
  created_at = 10;
  last_update = 10;
  strategy_id = none;
}

-- tracked, signed, submitted, linked to the exchange id 40 and acknowledged
added : OpenOrders
added = (add_order new (new_order 7 10 1 buy (dec 5 1) (dec 100 0) none)).0

sent : OpenOrders
sent = (transition (transition added 7 signed 11).0 7 submitted 12).0

live : OpenOrders
live = (transition (link_order_id sent 7 40 13).0 7 acked 14).0

abbrev live_order : TrackedOrder
live_order = record order { order_id = some 40; state = acked; last_update = 14 }

sent_holds : get_by_local_id sent 7 ≡ some (record order { state = submitted; last_update = 12 })
unfolding sent added transition add_order new new_order get_by_local_id can_transition_to
sent_holds = refl

live_holds : get_by_local_id live 7 ≡ some live_order
unfolding live sent added transition add_order link_order_id new new_order get_by_local_id
    can_transition_to
live_holds = refl

Reach-live : Reach live
unfolding live sent added get_by_local_id transition add_order link_order_id new new_order
    can_transition_to
Reach-live =
    Reach.next
      (Reach.next
        (Reach.next
          (Reach.next
            (Reach.next Reach.begin (Step.added 7 10 1 buy (dec 5 1) (dec 100 0) none refl))
            (Step.moved_to 7 signed 11))
          (Step.moved_to 7 submitted 12))
        (Step.acknowledged 7 40 13 (record order { state = submitted; last_update = 12 }) refl refl
          refl))
      (Step.moved_to 7 acked 14)

sizes_add_up_example : add (dec 0 0) (dec 100 0) ≡ dec 100 0
sizes_add_up_example = sizes_add_up ⦃ex = exact_ops-IsExact⦄ 7 Reach-live live_holds

to_signed : History created_local signed
unfolding can_transition_to
to_signed = History.move History.start refl

to_submitted : History created_local submitted
unfolding can_transition_to
to_submitted = History.move to_signed refl

to_acked : History created_local acked
unfolding can_transition_to
to_acked = History.move to_submitted refl

to_filled : History created_local filled
unfolding can_transition_to
to_filled = History.move to_acked refl

Reach-IsCoherent_example : IsCoherent live
Reach-IsCoherent_example = Reach-IsCoherent Reach-live
