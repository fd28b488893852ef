-- ===== src/Ledger/Positions/Examples.antt =====
-- Fills of the sizes in the unit tests of src/ledger/positions.rs, and the theorems at them.
use poly_bot.Prelude.{◌≡◌, refl, true, none, List, [], ◌∷◌}
use poly_bot.Prelude.Int.{◌+ℤ◌, ◌-ℤ◌}
use poly_bot.Decimal.{Decimal, dec, nought, neg}
use poly_bot.Decimal.Exact.{exact_ops, exact_ops-IsExact}
use poly_bot.Types.{Side, buy, sell}
use poly_bot.Ledger.Positions.{
  Position, Positions, Fill, signed_size, get_position, update_position, is_flat,
}
use poly_bot.Ledger.Positions.Accounting.{
  apply_fills, tally, apply_fills-tally, close_keeps_unrealized,
}

abbrev fill : Side → Decimal → Decimal → Fill
fill side price size = record {
  fill_id = 1;
  order_id = 2;
  token_id = 5;
  side = side;
  price = price;
  size = size;
  fee = dec 1 1;
  expected_price = none;
  slippage_cost = nought;
  timestamp = 30;
}

abbrev long : Position
long = record {
  token_id = 5;
  shares = dec 100 0;
  avg_cost = dec 5 1;
  cost_basis = dec 50 0;
  realized_pnl = nought;
  unrealized_pnl = dec 20 0;
  total_fees = nought;
  total_slippage_cost = nought;
  fill_count = 1;
  opened_at = 10;
  last_update = 10;
}

abbrev flip : Fill
flip = fill sell (dec 6 1) (dec 150 0)

-- 100 long at 0.50, then 150 sold at 0.60: 50 short at 0.60, and 10 earned.
flip_runs :
    let p = update_position flip long in
    (p.shares ≡ neg (dec 50 0)) × (p.avg_cost ≡ dec 6 1) × (p.realized_pnl ≡ dec 10 0)
unfolding update_position ◌+ℤ◌ ◌-ℤ◌
flip_runs = (refl, refl, refl)

abbrev held : Positions
held = (5, long) ∷ []

abbrev fills : List Fill
fills = fill buy (dec 4 1) (dec 20 0) ∷ flip ∷ []

apply_fills-tally_example :
    let p' = get_position (apply_fills held fills 9) 5 9 in
    (p'.shares ≡ tally signed_size 5 (get_position held 5 9).shares fills)
    × (p'.total_fees ≡ tally (λ f. f.fee) 5 (get_position held 5 9).total_fees fills)
    × (p'.total_slippage_cost
        ≡ tally (λ f. f.slippage_cost) 5 (get_position held 5 9).total_slippage_cost fills)
apply_fills-tally_example = apply_fills-tally ⦃ex = exact_ops-IsExact⦄ held fills 9 5

close_keeps_unrealized_example :
    let p = update_position (fill sell (dec 6 1) (dec 100 0)) long in
    (is_flat p ≡ true) × (p.unrealized_pnl ≡ dec 20 0)
unfolding signed_size ◌+ℤ◌
close_keeps_unrealized_example =
    close_keeps_unrealized ⦃ex = exact_ops-IsExact⦄ (fill sell (dec 6 1) (dec 100 0)) long (λ e. cc)
      refl
