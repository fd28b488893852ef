-- ===== src/Strategy/Contrarian/Examples.antt =====
-- A token that another strategy has bought and that is sold after two minutes. Texts of numbers are
-- numbers of cents.
use poly_bot.Prelude.{
  false, ℕ, ◌≡◌, refl, true, Option, none, some, List, [], ◌++◌, ◌∷◌, any, arith,
}
use poly_bot.Prelude.Int.{◌+ℤ◌}
use poly_bot.Decimal.{Decimal, dec, nought}
use poly_bot.Decimal.Exact.{exact_ops}
use poly_bot.Types.{Key, buy, sell}
use poly_bot.Ledger
use poly_bot.Ledger.{Ledger}
use poly_bot.Ledger.Positions.{Fill, new_position, get_position, is_flat}
use poly_bot.State.OrderBook.{Books, best_ask, best_bid, mid_price}
use poly_bot.Strategy.MarketPair.{MarketPair, MarketPairRegistry, yes_no, get_by_token}
use poly_bot.Strategy.Traits.{StrategyContext}
use poly_bot.Strategy.Contrarian.{ExitReason, default_config, with_config, trimmed}
use poly_bot.Strategy.Contrarian.Sales.{is_sale_of, CanSell}
use poly_bot.Strategy.Contrarian.Tracking.{Event, book_updated, filled, ticked}
use poly_bot.Strategy.Contrarian.Runs.{tell_all, sells_any_buy}

-- Entries older than the cutoff go, from the end.
trimmed_runs :
    trimmed 10 20 ((20, nought) ∷ (12, nought) ∷ (9, nought) ∷ [])
    ≡ (20, nought) ∷ (12, nought) ∷ []
unfolding trimmed
trimmed_runs = refl

abbrev parse : Key → Option Decimal
parse k = some (dec k 2)

abbrev exit_reason : ExitReason → Key
exit_reason r = 0

abbrev pair : MarketPair
pair = record {
  condition_id = 7;
  yes_token_id = 1;
  no_token_id = 2;
  fee_rate_bps = 0;
  is_neg_risk = false;
  description = 0;
  min_order_size = dec 1 0;
  tick_size = dec 1 2;
  outcome_type = yes_no;
  first_outcome_label = 0;
  second_outcome_label = 0;
  asset_symbol = none;
}

abbrev registry : MarketPairRegistry
registry = record { by_condition = (7, pair) ∷ []; by_token = (1, pair) ∷ (2, pair) ∷ [] }

abbrev books : Books
books =
    (
      1,
      record {
        token_id = 1;
        market = 7;
        bids = record { price = 45; size = 900 } ∷ [];
        asks = record { price = 47; size = 900 } ∷ [];
        last_update = none;
        hash = none;
      },
    )
    ∷ []

abbrev context : ℕ → StrategyContext
unfolding Ledger.new new_position
context now = record {
  books = books;
  ledger = record (Ledger.new nought) {
    positions = (1, record (new_position 1 0) { shares = dec 10 0 }) ∷ [];
  };
  now = now;
  utc_now = now;
}

abbrev arb_fill : Fill
arb_fill = record {
  fill_id = 1;
  order_id = 4;
  token_id = 1;
  side = buy;
  price = dec 46 2;
  size = dec 10 0;
  fee = nought;
  timestamp = 5;
  expected_price = none;
  slippage_cost = nought;
}

abbrev sellable : CanSell parse registry (context 125_000) 1
unfolding context mid_price best_bid best_ask ◌+ℤ◌ get_by_token is_flat get_position
sellable = record {
  mid = dec 46 2;
  has_mid = refl;
  bid = dec 45 2;
  has_bid = refl;
  pair = pair;
  has_pair = refl;
  is_held = refl;
  is_sizable = omega arith;
}

abbrev entry_reason : (drop edge fair : Decimal) → Key
entry_reason drop edge fair = 0

abbrev other_fill : Fill
other_fill = record arb_fill { token_id = 3; side = sell }

abbrev meanwhile : List Event
unfolding context
meanwhile =
    ticked (context 6000)
    ∷ book_updated 7 1 (context 7000)
    ∷ filled other_fill (context 8000)
    ∷ filled arb_fill (context 9000)
    ∷ []

sells_any_buy_example :
    any (is_sale_of 1) (
      tell_all parse exit_reason registry entry_reason
        (with_config default_config)
        (filled arb_fill (context 5000) ∷ meanwhile ++ (ticked (context 125_000) ∷ [])))
    ≡ true
unfolding with_config context meanwhile is_flat get_position
sells_any_buy_example =
    sells_any_buy parse exit_reason registry entry_reason arb_fill (context 5000) (context 125_000)
      (with_config default_config) meanwhile refl refl refl refl refl sellable refl
