-- ===== src/Execution/Executor/Quantize.antt =====
-- src/execution/executor.rs: the sizes that make a price times a size a whole number of cents.
use poly_bot.Prelude.{ℕ, ◌/◌, ◌%◌, ◌^◌, ◌<◌, ◌||◌, leb, if◌then◌else◌, arith}
use mathlib.Core.Logic.{dite}
use mathlib.Core.WellFounded.{Acc}
use native.Mathlib.Decide.{dec_lt}
use poly_bot.Prelude.Order.{lt_wf}
use poly_bot.Decimal.{
  Decimal, pos, negsuc, nought, dec, eq, lt, DecimalOps, add, mul, div, floor, round,
}

-- The loop of `gcd_u64`, on the proof that its second number is accessible.
unfoldable pub gcd_loop : {b : ℕ} → Acc ◌<◌ b → (a : ℕ) → ℕ
gcd_loop {b} (Acc.intro _ less) a =
    dite (dec_lt 0 b) (λ goes_on. gcd_loop (less (a % b) (omega arith)) b) (λ ends. a)

unfoldable pub gcd_u64 : (a b : ℕ) → ℕ
unfolding gcd_loop lt_wf dec_lt
gcd_u64 a b = gcd_loop (lt_wf.apply b) a

-- `to_i64().unwrap_or(1).max(1)` of a whole number
abbrev pub cents_of : Decimal → ℕ
cents_of (negsuc n) = 1
cents_of (pos n) =
    let whole = n / 10 ^ 28 in
    if leb whole 9223372036854775807 then (if leb 1 whole then whole else 1) else 1

-- a hundred times the lot size
unfoldable pub lot_cents : ℕ → ℕ
unfolding gcd_u64
lot_cents price_cents = 100 / gcd_u64 price_cents 100

module _ ⦃o : DecimalOps⦄ where
  unfoldable pub lot_of : Decimal → Decimal
  unfolding lot_cents
  lot_of price = dec (lot_cents (cents_of (round (mul price (dec 100 0))))) 2

  unfoldable pub quantize_size_for_usdc_precision : (price size : Decimal) → Decimal
  unfolding lot_of
  quantize_size_for_usdc_precision price size =
      let lot = lot_of price in
      let quantized = mul (floor (div size lot)) lot in
      if eq price nought || eq size nought
      then size
      else if lt (mul price quantized) (dec 1 0)
      then add quantized lot
      else quantized
