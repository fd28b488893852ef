-- ===== src/Ledger/Examples.antt =====
-- Fills and a cancellation on a small ledger, and the theorems of the ledger at them.
use poly_bot.Prelude.{◌≡◌, refl, true, none, some, List, [], ◌∷◌, ◌++◌, arith}
use poly_bot.Decimal.{dec, nought, sub, min}
use poly_bot.Decimal.Exact.{exact_ops, exact_ops-IsExact}
use poly_bot.Types.{Side, buy, sell, acked, cancelled}
use poly_bot.Ledger.{Ledger, process_fill, apply_server_cancel}
use poly_bot.Ledger.Cash
use poly_bot.Ledger.Cash.Conservation.{positive}
use poly_bot.Ledger.Orders.{
  TrackedOrder, OpenOrders, get_by_order_id, moved, remaining_notional, is_open,
}
use poly_bot.Ledger.Orders.Coherence.{IsCoherent}
use poly_bot.Ledger.Positions.{Fill, fill_notional}
use poly_bot.Ledger.Fills.{process_all, settled_total, replay_idempotent, total-process_fill}
use poly_bot.Ledger.Cancels.{server_cancel_lem}

abbrev order : TrackedOrder
order = record {
  order_id = some 40;
  local_id = 7;
  state = acked;
  token_id = 1;
  side = buy;
  price = dec 5 1;
  original_size = dec 100 0;
  filled_size = nought;
  remaining_size = dec 100 0;
  created_at = 10;
  last_update = 10;
  strategy_id = none;
}

abbrev orders : OpenOrders
orders = record {
  by_order_id = (40, order) ∷ [];
  by_local_id = (7, order) ∷ [];
  total_created = 1;
  total_filled = 0;
  total_cancelled = 0;
  total_rejected = 0;
}

orders-IsCoherent : IsCoherent orders
orders-IsCoherent = record {
  keyed = λ l x h. ground arith;
  copies = λ k x h. ground arith;
  copied = λ l k x h e. ground arith;
}

abbrev book : Ledger
book = record {
  orders = orders;
  positions = [];
  cash = record { available = dec 950 0; reserved = dec 50 0 };
  fills = [];
  seen_fill_ids = [];
}

abbrev fill : Side → Fill
fill side = record {
  fill_id = 1;
  order_id = 40;
  token_id = 1;
  side = side;
  price = dec 5 1;
  size = dec 20 0;
  fee = dec 1 1;
  expected_price = none;
  slippage_cost = nought;
  timestamp = 30;
}

abbrev session : List Fill
session = fill buy ∷ record (fill sell) { fill_id = 2 } ∷ []

replay_idempotent_example : process_all book (session ++ session) 9 ≡ process_all book session 9
replay_idempotent_example = replay_idempotent book session 9

total-process_fill_example :
    Cash.total (process_fill book (fill buy) 9).cash
    ≡ sub (settled_total buy book.cash (fill_notional (fill buy))) (positive (dec 1 1))
total-process_fill_example =
    total-process_fill ⦃ex = exact_ops-IsExact⦄ book (fill buy) 9 refl (omega arith)

server_cancel_lem_example :
    let (l, done) = apply_server_cancel book 40 20 in
    (done ≡ true)
    × (get_by_order_id l.orders 40 ≡ some (moved cancelled 20 order))
    × (Cash.total l.cash ≡ Cash.total book.cash)
    × (l.cash.reserved ≡ sub (dec 50 0) (min (positive (remaining_notional order)) (dec 50 0)))
server_cancel_lem_example =
    server_cancel_lem ⦃ex = exact_ops-IsExact⦄ book 40 20 orders-IsCoherent (omega arith)
      (unfold get_by_order_id in refl) (unfold is_open in refl)
