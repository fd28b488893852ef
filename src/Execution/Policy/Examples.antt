-- ===== src/Execution/Policy/Examples.antt =====
-- The policies on intents at 0.55 with a tick of 0.01, and the theorems there.
use poly_bot.Prelude.{◌≡◌, refl, none}
use poly_bot.Decimal.{Decimal, dec}
use poly_bot.Decimal.Exact.{exact_ops, exact_ops-IsExact, exact_ops-HasTicks}
use poly_bot.Types.{Side, sell}
use poly_bot.Execution.Policy.{
  Urgency, immediate, IntentRef, default_taker, default_maker, taker_params, maker_params,
  round_up_to_tick,
}
use poly_bot.Execution.Policy.Ticks.{taker_sell_passive}

abbrev intent : Side → Urgency → Decimal → IntentRef
intent side urgency price = record {
  token_id = 5;
  side = side;
  price = price;
  size = dec 100 0;
  urgency = urgency;
  strategy_name = 1;
  group_id = none;
  tick_size = dec 1 2;
}

sell_rounds_up : (taker_params default_taker (intent sell immediate (dec 553 3)) 9).price ≡ dec 56 2
unfolding taker_params round_up_to_tick
sell_rounds_up = refl

taker_sell_passive_example :
    (taker_params default_taker (intent sell immediate (dec 553 3)) 9).price
    ≡ (maker_params default_maker (intent sell immediate (dec 553 3)) 9).price
taker_sell_passive_example =
    taker_sell_passive ⦃ex = exact_ops-IsExact⦄ ⦃ticks = exact_ops-HasTicks⦄ default_taker
      (intent sell immediate (dec 553 3)) 9 refl
