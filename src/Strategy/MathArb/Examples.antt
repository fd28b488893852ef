-- ===== src/Strategy/MathArb/Examples.antt =====
-- The arbitrage strategy on a pair whose tokens cost 48 and 49 cents. Texts of numbers are numbers of
-- cents.
use poly_bot.Prelude.{
  unless, ℕ, ◌+◌, ◌≡◌, refl, true, false, ◌||◌, Option, none, some, List, [], ◌∷◌, ◌++◌, filter,
  is_empty, arith,
}
use poly_bot.Decimal.{Decimal, dec, nought, ◌≤ℤ◌}
use poly_bot.Decimal.Exact.{exact_ops, exact_ops-IsExact}
use poly_bot.Types.{Key, buy, sell}
use poly_bot.Ledger.Orders
use poly_bot.Ledger.Positions.{Fill, fill_notional}
use poly_bot.State.OrderBook.{BookSnapshot, get_book, best_ask}
use poly_bot.State.OrderBook.Snapshot.{book_is_two_sided, book_best_ask, book_best_bid, book_spread}
use poly_bot.Prelude.Int.{◌+ℤ◌, ◌-ℤ◌}
use poly_bot.Strategy.EdgeCalculator.{
  taker, maker, quick_check, calculate, calculate_fees, estimate_slippage, partial_fill_margin,
  spread_penalty,
}
use poly_bot.Execution.Policy.{normal}
use poly_bot.Strategy.MarketPair.{MarketPair, MarketPairRegistry, get_by_token, yes_no}
use poly_bot.Strategy.Traits.{OrderIntent, StrategyContext}
use poly_bot.Strategy.MathArb.{
  MathArbStrategy, taker_config, with_config, on_book_update, is_on_cooldown, check_arb_opportunity,
  check_prices, is_eroded, round_up_to_tick, add_exposure, check_exposure_limit, effective_min,
  record_trade, trade_size_of,
}
use poly_bot.Strategy.MathArb.Exposure.{
  IsWithin, Told, book_updated, order_filled, tell_all, tell_all-IsWithin,
}
use poly_bot.Strategy.MathArb.Legs.{is_arb, on_book_update-IsArb, legs_routed}
use poly_bot.Strategy.MathArb.Resting.{rests_after_trade}
use poly_bot.Strategy.Router.Conflicts.{resolve_conflicts}
use poly_bot.Strategy.Router.Coverage.{is_grouped_at}

abbrev parse : Key → Option Decimal
parse k = some (dec k 2)

abbrev group_of : ℕ → Key
group_of n = n + 500

abbrev reason : Decimal → Key
reason edge = 0

abbrev pair : MarketPair
pair = record {
  condition_id = 7;
  yes_token_id = 1;
  no_token_id = 2;
  fee_rate_bps = 0;
  is_neg_risk = false;
  description = 0;
  min_order_size = dec 1 0;
  tick_size = dec 1 2;
  outcome_type = yes_no;
  first_outcome_label = 0;
  second_outcome_label = 0;
  asset_symbol = none;
}

abbrev registry : MarketPairRegistry
registry = record { by_condition = (7, pair) ∷ []; by_token = (1, pair) ∷ (2, pair) ∷ [] }

abbrev book_of : (token bid ask : Key) → BookSnapshot
book_of token bid ask = record {
  token_id = token;
  market = 7;
  bids = record { price = bid; size = 100_000 } ∷ [];
  asks = record { price = ask; size = 100_000 } ∷ [];
  last_update = none;
  hash = none;
}

abbrev context : ℕ → StrategyContext
context now = record {
  books = (1, book_of 1 47 48) ∷ (2, book_of 2 48 49) ∷ [];
  ledger = record {
    orders = Orders.new;
    positions = [];
    cash = record { available = dec 1000 0; reserved = nought };
    fills = [];
    seen_fill_ids = [];
  };
  now = now;
  utc_now = now;
}

abbrev arb : MathArbStrategy
unfolding with_config
arb = with_config taker_config

abbrev update : ℕ → MathArbStrategy → MathArbStrategy × List OrderIntent
update now s = on_book_update parse group_of reason reason registry 7 1 (context now) s

two_legs : is_empty (update 1000 arb).1 ≡ false
unfolding on_book_update arb unless get_by_token is_on_cooldown check_arb_opportunity get_book
    book_is_two_sided quick_check best_ask ◌+ℤ◌ ◌-ℤ◌ taker maker check_prices is_eroded
    round_up_to_tick calculate calculate_fees book_best_ask book_best_bid book_spread
    estimate_slippage partial_fill_margin spread_penalty add_exposure check_exposure_limit
    effective_min record_trade trade_size_of with_config
two_legs = refl

on_book_update-IsArb_example :
    (is_empty (update 1000 arb).1 || is_arb pair arb.config.min_position_size (update 1000 arb).1)
    ≡ true
unfolding get_by_token
on_book_update-IsArb_example =
    on_book_update-IsArb parse group_of reason reason registry 7 1 (context 1000) arb pair refl

abbrev rival : OrderIntent
rival = record {
  market_id = 7;
  token_id = 1;
  side = buy;
  price = dec 48 2;
  size = dec 10 0;
  urgency = normal;
  reason = 0;
  strategy_name = 3;
  group_id = none;
  priority = 200;
  tick_size = dec 1 2;
  market_desc = 0;
  created_at = 5;
}

legs_routed_example :
    filter (is_grouped_at 100) (resolve_conflicts (rival ∷ (update 1000 arb).1 ++ (rival ∷ [])))
    ≡ filter (is_grouped_at 100) (rival ∷ [])
      ++ ((update 1000 arb).1 ++ filter (is_grouped_at 100) (rival ∷ []))
legs_routed_example =
    legs_routed parse group_of reason reason (rival ∷ []) (rival ∷ []) registry 7 1 (context 1000)
      arb

abbrev sale : Fill
sale = record {
  fill_id = 1;
  order_id = 4;
  token_id = 2;
  side = sell;
  price = dec 50 2;
  size = dec 10 0;
  fee = nought;
  expected_price = none;
  slippage_cost = nought;
  timestamp = 5;
}

sale_value : nought ≤ℤ fill_notional sale
unfolding fill_notional
sale_value = omega arith

tell_all-IsWithin_example : IsWithin taker_config (
    tell_all parse group_of reason reason taker_config arb
      (book_updated registry 7 1 (context 1000) ∷ order_filled sale (context 1200) sale_value ∷ []))
unfolding arb
tell_all-IsWithin_example =
    tell_all-IsWithin parse group_of reason reason taker_config ⦃ex = exact_ops-IsExact⦄
      (book_updated registry 7 1 (context 1000) ∷ order_filled sale (context 1200) sale_value ∷ [])
      (omega arith)

abbrev meanwhile : List (Told parse group_of reason reason taker_config)
meanwhile =
    book_updated registry 7 2 (context 1200)
    ∷ book_updated registry 8 1 (context 1300)
    ∷ order_filled sale (context 1400) sale_value
    ∷ []

rests_after_trade_example :
    (update 1500
      (tell_all parse group_of reason reason taker_config (update 1000 arb).0 meanwhile)).1
    ≡ []
unfolding arb with_config
rests_after_trade_example =
    rests_after_trade parse group_of reason reason registry registry 7 1 1 (context 1000)
      (context 1500) arb meanwhile two_legs refl refl
