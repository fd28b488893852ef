-- ===== src/Ledger/Positions/Rates.antt =====
-- src/ledger/positions.rs: the fee and the slippage of a fill in basis points, for reports. `to_u32`
-- and `to_i64` are the crate's conversions of a decimal.
use poly_bot.Prelude.{ℕ, Option, none, some, unwrap_or, if◌then◌else◌}
use poly_bot.Prelude.Int.{ℤ, pos}
use poly_bot.Decimal.{Decimal, dec, nought, eq, DecimalOps, sub, mul, div, round}
use poly_bot.Types.{Side, buy, sell}
use poly_bot.Ledger.Positions.{Fill, fill_notional}

module _ ⦃o : DecimalOps⦄ where
  abbrev pub bps_of : Decimal → Decimal
  bps_of ratio = round (mul ratio (dec 10_000 0))

  unfoldable pub fill_fee_rate_bps : (to_u32 : Decimal → Option ℕ) → Fill → ℕ
  fill_fee_rate_bps to_u32 f =
      if eq (fill_notional f) nought
      then 0
      else unwrap_or (to_u32 (bps_of (div f.fee (fill_notional f)))) 0

  -- positive when the price is worse than expected
  abbrev pub slip_of : Side → (price expected : Decimal) → Decimal
  slip_of buy price expected = div (sub price expected) expected
  slip_of sell price expected = div (sub expected price) expected

  abbrev pub slippage_at : (to_i64 : Decimal → Option ℤ) → Fill → Option Decimal → Option ℤ
  slippage_at to_i64 f none = none
  slippage_at to_i64 f (some expected) =
      if eq expected nought
      then none
      else some (unwrap_or (to_i64 (bps_of (slip_of f.side f.price expected))) (pos 0))

  unfoldable pub fill_slippage_bps : (to_i64 : Decimal → Option ℤ) → Fill → Option ℤ
  fill_slippage_bps to_i64 f = slippage_at to_i64 f f.expected_price
