-- ===== src/Risk/Limits/Orders.antt =====
-- What an order that `check_order` lets pass can do to the ledger.
use poly_bot.Prelude.{ℕ, ◌≡◌, true, false, none, arith, leb}
use poly_bot.Decimal.{
  Decimal, nought, abs, DecimalOps, IsExact, HasSigns, Commutes, add, mul, eq_of_parts, ◌≤ℤ◌, ◌<ℤ◌,
}
use poly_bot.Types.{Key, Side, buy, is_ok}
use poly_bot.Ledger.{Ledger, open_orders_count, cash_snapshot}
use poly_bot.Ledger.Cash.{reserve, snapshot}
use poly_bot.Ledger.Positions.{Position, Fill, get_position, update_position, signed_size}
use poly_bot.Risk.Limits.{RiskLimits, check_order, new_exposure, lacks_cash}

module _ ⦃o : DecimalOps⦄ where
  -- The value of an order that passes lies within the sizes allowed, fewer orders are open than
  -- allowed, the cash covers it if it is a buy, and the exposure that it leads to is allowed.
  pub check_order_passes :
      (r : RiskLimits) (t : Key) (side : Side) (price size : Decimal) (l : Ledger) (now : ℕ)
      → check_order r t side price size l now ≡ none
      → (mul price size ≤ℤ r.config.max_order_size)
        × (r.config.min_order_size ≤ℤ mul price size)
        × (leb r.config.max_open_orders (open_orders_count l) ≡ false)
        × (lacks_cash side (mul price size) (cash_snapshot l).available ≡ false)
        × (new_exposure side (mul price size) (get_position l.positions t now)
            ≤ℤ r.config.max_position_exposure)
  unfolding check_order
  check_order_passes r t side price size l now h = ground arith

  -- Under a positive minimum of the order size, the value of a buy that passes the check can be
  -- reserved.
  pub passed_buy_reserves :
      (r : RiskLimits) (t : Key) (price size : Decimal) (l : Ledger) (now : ℕ)
      → check_order r t buy price size l now ≡ none
      → nought <ℤ r.config.min_order_size
      → is_ok (reserve l.cash (mul price size)).1 ≡ true
  unfolding reserve cash_snapshot snapshot
  passed_buy_reserves r t price size l now h pos =
      ground (arith, check_order_passes r t buy price size l now h)

module _ ⦃o : DecimalOps⦄ ⦃ex : IsExact⦄ ⦃signs : HasSigns⦄ ⦃comm : Commutes⦄ where
  filled_buy :
      (f : Fill) (p : Position)
      → f.side ≡ buy
      → nought <ℤ f.size
      → nought ≤ℤ p.shares
      → (update_position f p).cost_basis ≡ new_exposure buy (mul f.price f.size) p
  unfolding update_position new_exposure signed_size
  filled_buy f p side size long = ground (
    arith,
    eq_of_parts (add p.shares f.size) f.size,
    ex.add_parts p.shares f.size,
    signs.mul_zero_left (abs p.shares) p.avg_cost,
    comm.mul_comm p.avg_cost (abs p.shares),
    eq_of_parts (abs f.size) f.size,
    eq_of_parts (abs (add p.shares f.size)) f.size,
    eq_of_parts (add (mul (abs p.shares) p.avg_cost) (mul f.price f.size)) (mul f.price f.size),
    ex.add_parts (mul (abs p.shares) p.avg_cost) (mul f.price f.size),
    eq_of_parts (abs p.shares) nought,
  )

  -- A buy of a positive size that passes and is then filled in full at its price, on a position
  -- that is not short, leaves the position with a cost basis within the limit of exposure, where
  -- sums and differences are exact, the factors of a product may change places, and zero times
  -- anything is zero.
  pub passed_buy_bounded :
      (r : RiskLimits) (f : Fill) (l : Ledger) (now : ℕ)
      → check_order r f.token_id f.side f.price f.size l now ≡ none
      → f.side ≡ buy
      → nought <ℤ f.size
      → nought ≤ℤ (get_position l.positions f.token_id now).shares
      → (update_position f (get_position l.positions f.token_id now)).cost_basis
        ≤ℤ r.config.max_position_exposure
  passed_buy_bounded r f l now h side size long =
      let (_, _, _, _, bound) = check_order_passes r f.token_id f.side f.price f.size l now h in
      ground (arith, filled_buy f (get_position l.positions f.token_id now) side size long)
