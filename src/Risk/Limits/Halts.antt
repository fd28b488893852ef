-- ===== src/Risk/Limits/Halts.antt =====
-- When the daily loss halts trading.
use poly_bot.Prelude.{◌≡◌, Bool, false, not, ◌||◌, List, [], ◌∷◌, arith}
use poly_bot.Decimal.{Decimal, lt, neg, DecimalOps, add}
use poly_bot.Risk.Limits.{RiskLimits, record_realized_pnl, is_trading_allowed}

module _ ⦃o : DecimalOps⦄ where
  -- Profits that are recorded one after another, each with what is unrealized at that time.
  unfoldable pub record_all : RiskLimits → List (Decimal × Decimal) → RiskLimits
  record_all r [] = r
  record_all r ((pnl, unrealized) ∷ xs) = record_all (record_realized_pnl r pnl unrealized) xs

  -- At some point of the day the loss was above the limit.
  unfoldable pub breaches : (max_loss realized : Decimal) → List (Decimal × Decimal) → Bool
  breaches max_loss realized [] = false
  breaches max_loss realized ((pnl, unrealized) ∷ xs) =
      lt (add (add realized pnl) unrealized) (neg max_loss)
      || breaches max_loss (add realized pnl) xs

  record_realized_pnl_lem :
      (r : RiskLimits) (pnl u : Decimal)
      → let r' = record_realized_pnl r pnl u in
        (r'.config ≡ r.config)
        × (r'.daily_realized_pnl ≡ add r.daily_realized_pnl pnl)
        × (r'.trading_halted ≡ (
            r.trading_halted
            || lt (add (add r.daily_realized_pnl pnl) u) (neg r.config.max_daily_loss)))
  unfolding record_realized_pnl
  record_realized_pnl_lem r pnl u = ground arith

  -- Trading is allowed after any recorded profits and losses exactly when it was before and the
  -- loss of the day, the unrealized one included, was never above the limit.
  pub is_trading_allowed-record_all :
      (xs : List (Decimal × Decimal)) (r : RiskLimits)
      → is_trading_allowed (record_all r xs)
        ≡ not (r.trading_halted || breaches r.config.max_daily_loss r.daily_realized_pnl xs)
  unfolding record_all breaches is_trading_allowed
  is_trading_allowed-record_all [] r = ground arith
  is_trading_allowed-record_all ((pnl, u) ∷ xs) r = ground (
    arith,
    is_trading_allowed-record_all xs (record_realized_pnl r pnl u),
    record_realized_pnl_lem r pnl u,
  )
