-- ===== src/Strategy/MarketPair/Examples.antt =====
-- The registry with two markets, and the theorems there.
use poly_bot.Prelude.{refl, false, none}
use poly_bot.Decimal.{one, dec}
use poly_bot.Types.{Key}
use poly_bot.Strategy.MarketPair.{
  BinaryOutcomeType, MarketPair, MarketPairRegistry, empty_registry, register,
}
use poly_bot.Strategy.MarketPair.Indices.{IsCoherent, IsReached, IsReached-IsCoherent}

abbrev pair_of : (condition first second : Key) → MarketPair
pair_of condition first second = record {
  condition_id = condition;
  yes_token_id = first;
  no_token_id = second;
  fee_rate_bps = 1000;
  is_neg_risk = false;
  description = 0;
  min_order_size = one;
  tick_size = dec 1 2;
  outcome_type = BinaryOutcomeType.up_down;
  first_outcome_label = 1;
  second_outcome_label = 2;
  asset_symbol = none;
}

abbrev markets : MarketPairRegistry
markets = register (register empty_registry (pair_of 7 11 12)) (pair_of 8 21 22)

markets-IsReached : IsReached markets
unfolding register empty_registry
markets-IsReached =
    IsReached.registered (pair_of 8 21 22)
      (record { condition_free = refl; yes_free = refl; no_free = refl; differ = refl })
      (IsReached.registered (pair_of 7 11 12)
        (record { condition_free = refl; yes_free = refl; no_free = refl; differ = refl })
        IsReached.at_start)

IsReached-IsCoherent_example : IsCoherent markets
IsReached-IsCoherent_example = IsReached-IsCoherent markets markets-IsReached
