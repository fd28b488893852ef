-- ===== src/Strategy/EdgeCalculator/Examples.antt =====
-- The calculation of the source's tests, where texts are the numbers of cents that they stand for.
use poly_bot.Prelude.Int.{◌-ℤ◌, ◌+ℤ◌}
use poly_bot.Prelude.{◌≡◌, refl, true, false, Option, none, some, [], ◌∷◌, arith}
use poly_bot.Decimal.{Decimal, dec, one, add, ◌≤ℤ◌}
use poly_bot.Decimal.Exact.{exact_ops, exact_ops-IsExact}
use poly_bot.Types.{Key}
use poly_bot.State.OrderBook.{BookSnapshot}
use poly_bot.State.OrderBook.Snapshot.{book_best_bid, book_spread, book_best_ask}
use poly_bot.Strategy.EdgeCalculator.{
  spread_penalty, partial_fill_margin, estimate_slippage, calculate_fees, default_edge_config,
  calculate, min_depth,
}
use poly_bot.Strategy.EdgeCalculator.Profit.{profitable_lem}

abbrev parse : Key → Option Decimal
parse k = some (dec k 2)

abbrev book_of : (token bid ask depth : Key) → BookSnapshot
book_of token bid ask depth = record {
  token_id = token;
  market = 7;
  bids = record { price = bid; size = depth } ∷ [];
  asks = record { price = ask; size = depth } ∷ [];
  last_update = none;
  hash = none;
}

abbrev yes_book : BookSnapshot
yes_book = book_of 1 47 48 100_000

abbrev no_book : BookSnapshot
no_book = book_of 2 48 49 100_000

profitable :
    (calculate parse default_edge_config yes_book no_book 0 (dec 100 0)).is_profitable ≡ true
unfolding calculate ◌+ℤ◌ calculate_fees book_best_ask estimate_slippage partial_fill_margin
    spread_penalty book_spread book_best_bid ◌-ℤ◌
profitable = refl

unprofitable :
    (calculate parse default_edge_config yes_book
      (book_of 2 49 52 100_000)
      0
      (dec 100 0)).is_profitable
    ≡ false
unfolding calculate ◌+ℤ◌ calculate_fees book_best_ask estimate_slippage partial_fill_margin
    spread_penalty book_spread book_best_bid ◌-ℤ◌
unprofitable = refl

profitable_lem_example :
    (a : Decimal) × (b : Decimal) × (book_best_ask parse yes_book ≡ some a)
    × (book_best_ask parse no_book ≡ some b)
    × (add (add a b) default_edge_config.min_edge ≤ℤ one)
    × (dec 100 0 ≤ℤ min_depth parse default_edge_config yes_book no_book)
unfolding book_best_ask
profitable_lem_example =
    profitable_lem ⦃ex = exact_ops-IsExact⦄ parse default_edge_config yes_book no_book 0 (dec 100 0)
      (omega arith) refl refl profitable
