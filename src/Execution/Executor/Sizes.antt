-- ===== src/Execution/Executor/Sizes.antt =====
-- How far a quantized size is from the size that was asked for, and the minimum of one dollar.
use poly_bot.Prelude.{
  ℕ, ◌<◌, ◌≡◌, ◌||◌, Bool, true, false, if◌then◌else◌, arith, Bool-cases, inl, inr,
}
use poly_bot.Decimal.{
  Decimal, nought, dec, eq, lt, DecimalOps, IsExact, HasLots, add, mul, div, floor, round, ◌≤ℤ◌,
  ◌<ℤ◌, add_exact,
}
use poly_bot.Execution.Executor.Quantize.{
  cents_of, lot_cents, lot_of, quantize_size_for_usdc_precision,
}
use poly_bot.Execution.Executor.Lots.{lots_cost_cents}

cents_pos : (k : ℕ) → 0 < k → nought <ℤ dec k 2
cents_pos k h = omega arith

not_below : (a b : Decimal) → lt a b ≡ false → b ≤ℤ a
not_below a b h = ground arith

is_below : (a b c : Decimal) → a ≤ℤ b → b <ℤ c → lt a c ≡ true
is_below a b c h k = ground arith

not_zero : (a b : Decimal) → nought <ℤ a → nought <ℤ b → (eq a nought || eq b nought) ≡ false
not_zero a b h k = ground arith

module _ ⦃o : DecimalOps⦄ where
  pub lot_pos : (price : Decimal) → nought <ℤ lot_of price
  unfolding lot_of
  lot_pos price =
      cents_pos (lot_cents (cents_of (round (mul price (dec 100 0)))))
        (lots_cost_cents (cents_of (round (mul price (dec 100 0)))) 0).1

  -- the size in whole lots
  abbrev whole_lots : (price size : Decimal) → Decimal
  whole_lots price size = mul (floor (div size (lot_of price))) (lot_of price)

-- The three cases of a size `s`, with `q` its whole lots `l`.
module _ ⦃o : DecimalOps⦄ ⦃ex : IsExact⦄ (s q l : Decimal) (l_pos : nought <ℤ l) where
  abbrev chosen : (unchanged bumped : Bool) → Decimal
  chosen unchanged bumped = if unchanged then s else if bumped then add q l else q

  chosen-bounds :
      (u b : Bool) → q ≤ℤ s → s <ℤ add q l → (s <ℤ add (chosen u b) l) × (chosen u b ≤ℤ add s l)
  chosen-bounds true b h k = (omega (arith, add_exact s l), omega (arith, add_exact s l))
  chosen-bounds false true h k = (
    omega (arith, add_exact q l, add_exact (add q l) l),
    omega (arith, add_exact s l, add_exact q l),
  )
  chosen-bounds false false h k = (omega arith, omega (arith, add_exact s l))

  chosen-above : (b : Bool) → b ≡ true → s <ℤ add q l → s <ℤ chosen false b
  chosen-above true e k = k
  chosen-above false e k = cc

module _ ⦃o : DecimalOps⦄ ⦃ex : IsExact⦄ ⦃lots : HasLots⦄ (price size : Decimal) where
  -- The quantized size is less than a lot below the size that was asked for, and at most a lot
  -- above it, for a size that is not negative, where sums and differences are exact and whole lots
  -- are counted correctly.
  pub quantize_bounds :
      nought ≤ℤ size
      → (size <ℤ add (quantize_size_for_usdc_precision price size) (lot_of price))
        × (quantize_size_for_usdc_precision price size ≤ℤ add size (lot_of price))
  unfolding quantize_size_for_usdc_precision
  quantize_bounds h =
      chosen-bounds size (whole_lots price size) (lot_of price) (lot_pos price)
        (eq price nought || eq size nought) (lt (mul price (whole_lots price size)) (dec 1 0))
        (lots.lots_below size (lot_of price) h (lot_pos price))
        (lots.lots_above size (lot_of price) h (lot_pos price))

  abbrev zeros : Bool
  zeros = eq price nought || eq size nought

  -- A size worth a dollar or more is still worth a dollar or more once it is quantized, for a price
  -- and a size that are not negative, where sums and differences are exact, whole lots are counted
  -- correctly and products with a factor that is not negative keep the order.
  pub quantize_minimum :
      nought ≤ℤ price
      → nought ≤ℤ size
      → dec 1 0 ≤ℤ mul price size
      → dec 1 0 ≤ℤ mul price (quantize_size_for_usdc_precision price size)
  unfolding quantize_size_for_usdc_precision
  quantize_minimum hp hs h =
      let lot = lot_of price in
      let q = whole_lots price size in
      let above : size <ℤ add q lot = lots.lots_above size lot hs (lot_pos price) in
      let more : mul price size ≤ℤ mul price (add q lot) =
        lots.mul_mono price size (add q lot) hp (omega (arith, above)) in
      elim (Bool-cases zeros) [
        | inl z ↦ rw z h
        | inr z ↦ rw z (elim (Bool-cases (lt (mul price q) (dec 1 0))) [
          | inl small ↦ rw small (omega (arith, more))
          | inr large ↦ rw large (not_below (mul price q) (dec 1 0) large)
        ])
      ]

  -- A positive size at a positive price that is worth less than a dollar is enlarged.
  pub quantize_enlarges :
      nought <ℤ price
      → nought <ℤ size
      → mul price size <ℤ dec 1 0
      → size <ℤ quantize_size_for_usdc_precision price size
  unfolding quantize_size_for_usdc_precision
  quantize_enlarges hp hs h =
      let lot = lot_of price in
      let q = whole_lots price size in
      let below : q ≤ℤ size = lots.lots_below size lot (omega arith) (lot_pos price) in
      let above : size <ℤ add q lot = lots.lots_above size lot (omega arith) (lot_pos price) in
      let less : mul price q ≤ℤ mul price size = lots.mul_mono price q size (omega arith) below in
      let z : zeros ≡ false = not_zero price size hp hs in
      let small : lt (mul price q) (dec 1 0) ≡ true =
        is_below (mul price q) (mul price size) (dec 1 0) less h in
      rw (z, small) above
