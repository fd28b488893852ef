-- ===== src/Strategy/MathArb/Exposure.antt =====
-- The exposure of the arbitrage strategy stays within its limit.
use poly_bot.Prelude.{ℕ, ◌≡◌, refl, false, not, Option, List, [], ◌∷◌, arith}
use poly_bot.Decimal.{Decimal, nought, le, max, DecimalOps, IsExact, add, sub, mul, ◌≤ℤ◌, sub_exact}
use poly_bot.Types.{Key, Side, buy, sell}
use poly_bot.Ledger.Positions.{Fill, fill_notional}
use poly_bot.Strategy.MarketPair.{MarketPair, MarketPairRegistry}
use poly_bot.Strategy.Traits.{OrderIntent, StrategyContext}
use poly_bot.Strategy.MathArb.{
  MathArbConfig, MathArbStrategy, with_config, record_trade, check_exposure_limit, add_exposure,
  traded, on_book_update, filled, on_fill,
}
use poly_bot.Strategy.MathArb.Checks.{on_book_update-holds}

is_within : (a b : Decimal) → not (le a b) ≡ false → a ≤ℤ b
is_within a b h = ground arith

sold_below :
    ⦃o : DecimalOps⦄ ⦃ex : IsExact⦄ (a n m : Decimal)
    → nought ≤ℤ n
    → nought ≤ℤ m
    → a ≤ℤ m
    → max (sub a n) nought ≤ℤ m
sold_below a n m h k l = ground (arith, sub_exact a n)

-- The strategy has this configuration, and its exposure is within the limit.
pub record IsWithin (config : MathArbConfig) (s : MathArbStrategy) : Type 0 where
  pub same_config : s.config ≡ config
  pub within : s.current_exposure ≤ℤ config.max_total_exposure

module _ ⦃o : DecimalOps⦄ (parse : Key → Option Decimal) (group_of : ℕ → Key)
    (yes_reason no_reason : Decimal → Key) (config : MathArbConfig) where
  abbrev KeepsWithin : MathArbStrategy × List OrderIntent → Type 0
  KeepsWithin r = IsWithin config r.0

  traded-IsWithin :
      (s : MathArbStrategy) (pair : MarketPair) (a b size edge : Decimal) (now : ℕ)
      → IsWithin config s
      → not (check_exposure_limit s (mul (add a b) size)) ≡ false
      → IsWithin config (traded parse group_of yes_reason no_reason s pair a b size edge now).0
  unfolding check_exposure_limit add_exposure record_trade
  traded-IsWithin s pair a b size edge now h k = record {
    same_config = h.same_config;
    within =
        rw (← h.same_config)
          (is_within (add s.current_exposure (mul (add a b) size)) s.config.max_total_exposure k);
  }

  on_book_update-IsWithin :
      (registry : MarketPairRegistry) (market token : Key) (ctx : StrategyContext)
      (s : MathArbStrategy)
      → IsWithin config s
      → IsWithin config
          (on_book_update parse group_of yes_reason no_reason registry market token ctx s).0
  on_book_update-IsWithin registry market token ctx s h =
      on_book_update-holds parse group_of yes_reason no_reason s ctx KeepsWithin registry market
        token h
        (λ pair f same x y size edge p k l. traded-IsWithin s pair x y size edge ctx.now h l)

  filled-IsWithin :
      ⦃ex : IsExact⦄ (side : Side) (notional : Decimal) (s : MathArbStrategy)
      → nought ≤ℤ notional
      → nought ≤ℤ config.max_total_exposure
      → IsWithin config s
      → IsWithin config (filled parse group_of yes_reason no_reason side notional s)
  filled-IsWithin buy notional s n m h = h
  filled-IsWithin sell notional s n m h = record {
    same_config = h.same_config;
    within = sold_below s.current_exposure notional config.max_total_exposure n m h.within;
  }

  -- What the strategy is told: a book update, with the registry and the context of the time, or a
  -- fill of a value that is not negative.
  pub data Told : Type 0 where
    book_updated : MarketPairRegistry → (market token : Key) → StrategyContext → Told
    order_filled : (fill : Fill) → StrategyContext → nought ≤ℤ fill_notional fill → Told

  unfoldable pub tell : MathArbStrategy → Told → MathArbStrategy
  tell s (book_updated registry market token ctx) =
      (on_book_update parse group_of yes_reason no_reason registry market token ctx s).0
  tell s (order_filled fill ctx n) = (on_fill parse group_of yes_reason no_reason fill ctx s).0

  unfoldable pub tell_all : MathArbStrategy → List Told → MathArbStrategy
  tell_all s [] = s
  tell_all s (x ∷ xs) = tell_all (tell s x) xs

  tell-IsWithin :
      ⦃ex : IsExact⦄ (s : MathArbStrategy) (x : Told)
      → nought ≤ℤ config.max_total_exposure
      → IsWithin config s
      → IsWithin config (tell s x)
  unfolding tell on_fill
  tell-IsWithin s (book_updated registry market token ctx) m h =
      on_book_update-IsWithin registry market token ctx s h
  tell-IsWithin s (order_filled fill ctx n) m h =
      filled-IsWithin fill.side (fill_notional fill) s n m h

  tell_all-keeps :
      ⦃ex : IsExact⦄ (xs : List Told) (s : MathArbStrategy)
      → nought ≤ℤ config.max_total_exposure
      → IsWithin config s
      → IsWithin config (tell_all s xs)
  unfolding tell_all
  tell_all-keeps [] s m h = h
  tell_all-keeps (x ∷ xs) s m h = tell_all-keeps xs (tell s x) m (tell-IsWithin s x m h)

  -- Whatever books, pairs, cash and fills a new strategy sees, and in whatever order, the exposure
  -- that it counts never passes the limit of its configuration, where this and the fills' values
  -- are not negative and sums and differences are exact.
  pub tell_all-IsWithin :
      ⦃ex : IsExact⦄ (xs : List Told)
      → nought ≤ℤ config.max_total_exposure
      → IsWithin config (tell_all (with_config config) xs)
  unfolding with_config
  tell_all-IsWithin xs m =
      tell_all-keeps xs (with_config config) m (record { same_config = refl; within = m })
