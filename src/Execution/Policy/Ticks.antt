-- ===== src/Execution/Policy/Ticks.antt =====
-- What rounding to ticks makes of a price, and what the policies agree on.
use poly_bot.Prelude.{ℕ, ◌≡◌, arith}
use poly_bot.Decimal.{
  Decimal, nought, dec, DecimalOps, HasTicks, IsExact, add, sub, mul, div, eq_of_parts, ◌<ℤ◌,
}
use poly_bot.Types.{sell}
use poly_bot.Execution.Policy.{
  IntentRef, TakerPolicy, DualPolicy, default_maker, round_up_to_tick, round_down_to_tick,
  apply_price_offset, taker_params, maker_params, dual_params,
}

module _ ⦃o : DecimalOps⦄ ⦃ticks : HasTicks⦄ where
  round_up_on_tick :
      (n : ℕ) (tick : Decimal)
      → nought <ℤ tick
      → round_up_to_tick (mul (dec n 0) tick) tick ≡ mul (dec n 0) tick
  unfolding round_up_to_tick
  round_up_on_tick n tick h = ground (arith, ticks.div_ticks n tick h, ticks.ceil_whole n)

  round_down_on_tick :
      (n : ℕ) (tick : Decimal)
      → nought <ℤ tick
      → round_down_to_tick (mul (dec n 0) tick) tick ≡ mul (dec n 0) tick
  unfolding round_down_to_tick
  round_down_on_tick n tick h = ground (arith, ticks.div_ticks n tick h, ticks.floor_whole n)

module _ ⦃o : DecimalOps⦄ ⦃ex : IsExact⦄ ⦃ticks : HasTicks⦄ where
  no_offset_buy : (price : Decimal) → add price (div nought (dec 100 0)) ≡ price
  no_offset_buy price = ground (
    arith,
    ticks.div_nought (dec 100 0),
    ex.add_parts price nought,
    eq_of_parts (add price nought) price,
  )

  no_offset_sell : (price : Decimal) → sub price (div nought (dec 100 0)) ≡ price
  no_offset_sell price = ground (
    arith,
    ticks.div_nought (dec 100 0),
    ex.sub_parts price nought,
    eq_of_parts (sub price nought) price,
  )

  -- A price that is a whole number of ticks of a positive size is sent as it is, whatever the
  -- urgency and the side, by the dual policy without a maker offset, where sums and differences are
  -- exact and so is dividing ticks by the tick.
  pub price_on_tick :
      (policy : DualPolicy) (intent : IntentRef) (now n : ℕ)
      → policy.maker.price_offset_cents ≡ nought
      → nought <ℤ intent.tick_size
      → intent.price ≡ mul (dec n 0) intent.tick_size
      → (dual_params policy intent now).price ≡ intent.price
  unfolding dual_params taker_params maker_params apply_price_offset
  price_on_tick policy intent now n h t e = ground (
    arith,
    no_offset_buy intent.price,
    no_offset_sell intent.price,
    round_up_on_tick n intent.tick_size t,
    round_down_on_tick n intent.tick_size t,
  )

  -- A taker sell is sent at the price of the passive ask that a maker without an offset would post,
  -- where sums and differences are exact and zero divided by a positive amount is zero.
  pub taker_sell_passive :
      (taker : TakerPolicy) (intent : IntentRef) (now : ℕ)
      → intent.side ≡ sell
      → (taker_params taker intent now).price ≡ (maker_params default_maker intent now).price
  unfolding taker_params maker_params apply_price_offset
  taker_sell_passive taker intent now h = ground (arith, no_offset_sell intent.price)
