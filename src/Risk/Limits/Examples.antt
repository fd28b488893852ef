-- ===== src/Risk/Limits/Examples.antt =====
-- The risk limits on a small portfolio, and the theorems there.
use poly_bot.Prelude.{refl, ◌≡◌, none, List, [], ◌∷◌, true, arith}
use poly_bot.Prelude.Int.{◌+ℤ◌}
use poly_bot.Decimal.{Decimal, dec, nought, neg, ◌≤ℤ◌}
use poly_bot.Decimal.Exact.{exact_ops, exact_ops-IsExact, exact_ops-HasSigns, exact_ops-Commutes}
use poly_bot.Types.{buy}
use poly_bot.Ledger
use poly_bot.Ledger.{Ledger, snapshot, open_orders_count, cash_snapshot}
use poly_bot.Ledger.Positions.{Fill, get_position, update_position, new_position}
use poly_bot.Risk.Limits.{RiskLimits, new, with_config, check_order, new_exposure}
use poly_bot.Risk.Limits.Orders.{passed_buy_bounded}
use poly_bot.Risk.Limits.Halts.{breaches}

abbrev limits : RiskLimits
limits = new

abbrev start : Ledger
start = Ledger.new (dec 1000 0)

abbrev bought : Fill
bought = record {
  fill_id = 1;
  order_id = 2;
  token_id = 5;
  side = buy;
  price = dec 5 1;
  size = dec 100 0;
  fee = nought;
  expected_price = none;
  slippage_cost = nought;
  timestamp = 30;
}

buy_passes : check_order limits 5 buy (dec 5 1) (dec 100 0) start 20 ≡ none
unfolding check_order new with_config Ledger.new open_orders_count cash_snapshot new_exposure
    get_position new_position ◌+ℤ◌
buy_passes = refl

passed_buy_bounded_example :
    (update_position bought (get_position start.positions 5 20)).cost_basis
    ≤ℤ limits.config.max_position_exposure
unfolding Ledger.new get_position new_position
passed_buy_bounded_example =
    passed_buy_bounded ⦃ex = exact_ops-IsExact⦄ ⦃signs = exact_ops-HasSigns⦄
      ⦃comm = exact_ops-Commutes⦄ limits bought start 20 buy_passes refl (omega arith) (omega arith)

abbrev losses : List (Decimal × Decimal)
losses =
    (neg (dec 300 0), neg (dec 100 0))
    ∷ (neg (dec 50 0), neg (dec 200 0))
    ∷ (dec 400 0, nought)
    ∷ []

losses_breach : breaches limits.config.max_daily_loss limits.daily_realized_pnl losses ≡ true
unfolding breaches new with_config ◌+ℤ◌
losses_breach = refl
