-- ===== src/Strategy/Contrarian/Exits.antt =====
-- src/strategy/contrarian.rs: the sale of a position that is held too long, or that has gained or lost
-- enough.
use poly_bot.Prelude.{
  ℕ, ◌-◌, ◌/◌, not, Option, none, some, unless, List, [], ◌∷◌, is_some, leb, if◌then◌else◌,
}
use poly_bot.Prelude.Dict.{Dict, lookup, insert}
use poly_bot.Decimal.{Decimal, nought, neg, lt, le, DecimalOps, sub, div, truncate}
use poly_bot.Types.{Key, sell}
use poly_bot.Ledger.Positions.{is_flat}
use poly_bot.State.OrderBook.{best_bid, mid_price}
use poly_bot.Execution.Policy.{normal}
use poly_bot.Strategy.MarketPair.{MarketPair, MarketPairRegistry, get_by_token}
use poly_bot.Strategy.Traits.{
  OrderIntent, StrategyContext, new_intent, with_priority, with_tick_size,
}
use poly_bot.Strategy.Contrarian.{
  ContrarianStrategy, ExitReason, time, profit, stop_loss, position_of, cleaned,
}

-- the rest of the loop without and with a sale before it
abbrev pub next_exit :
    Option OrderIntent → (skipped sold : Dict ℕ × List OrderIntent) → Dict ℕ × List OrderIntent
next_exit none skipped sold = skipped
next_exit (some x) skipped sold = (sold.0, x ∷ sold.1)

module _ ⦃o : DecimalOps⦄ where
  abbrev pub gain_of : (entry_price mid : Decimal) → Decimal
  gain_of entry_price mid =
      if lt nought entry_price then div (sub mid entry_price) entry_price else nought

  unfoldable pub exit_reason_of :
      ContrarianStrategy → (elapsed_secs : ℕ) → (unrealized_pct : Decimal) → Option ExitReason
  exit_reason_of s elapsed_secs unrealized_pct =
      if leb s.config.max_hold_secs elapsed_secs
      then some time
      else if le s.config.profit_target_pct unrealized_pct
      then some profit
      else if le unrealized_pct (neg s.config.stop_loss_pct)
      then some stop_loss
      else none

  module _ (parse : Key → Option Decimal) (exit_reason : ExitReason → Key) where
    abbrev pub exit_intent :
        ContrarianStrategy
        → MarketPair
        → (token_id : Key) → (bid size : Decimal) → ExitReason
        → ℕ
        → OrderIntent
    exit_intent s pair token_id bid size r now =
        with_priority
          (with_tick_size
            (new_intent pair.condition_id token_id sell bid size normal (exit_reason r) s.name now)
            pair.tick_size)
          60

    abbrev pub sold :
        MarketPairRegistry
        → ContrarianStrategy
        → (token_id : Key) → (shares bid : Decimal) → ExitReason
        → ℕ
        → Option OrderIntent
    sold registry s token_id shares bid r now =
        unless (le (truncate 2 shares) nought) (elim (get_by_token registry token_id) [
          | none ↦ none
          | some pair ↦ some (exit_intent s pair token_id bid (truncate 2 shares) r now)
        ])

    -- what the loop does with one entry
    unfoldable pub exit_of :
        MarketPairRegistry
        → ContrarianStrategy
        → (pending : Dict ℕ) → StrategyContext
        → Key × (Decimal × ℕ)
        → Option OrderIntent
    exit_of registry s pending ctx (token_id, (entry_price, entry_time)) =
        let pos = position_of ctx token_id in
        unless (is_flat pos) (
          unless (is_some (lookup token_id pending)) (elim (mid_price parse ctx.books token_id) [
            | none ↦ none
            | some mid ↦
                elim (exit_reason_of s ((ctx.now - entry_time) / 1000) (gain_of entry_price mid)) [
                  | none ↦ none
                  | some r ↦ elim (best_bid parse ctx.books token_id) [
                    | none ↦ none
                    | some bid ↦ sold registry s token_id pos.shares bid r ctx.now
                  ]
                ]
          ]))

    unfoldable pub exits :
        MarketPairRegistry
        → ContrarianStrategy
        → StrategyContext
        → (entries : Dict (Decimal × ℕ)) → (pending : Dict ℕ) → Dict ℕ × List OrderIntent
    exits registry s ctx [] pending = (pending, [])
    exits registry s ctx (e ∷ es) pending =
        next_exit (exit_of registry s pending ctx e) (exits registry s ctx es pending)
          (exits registry s ctx es (insert e.0 ctx.now pending))

    unfoldable pub check_exits :
        MarketPairRegistry
        → StrategyContext
        → ContrarianStrategy
        → ContrarianStrategy × List OrderIntent
    check_exits registry ctx s =
        let (pending, xs) = exits registry s ctx s.entry_tracking s.pending_exit in
        (record s { pending_exit = pending }, xs)

    unfoldable pub on_tick :
        MarketPairRegistry
        → StrategyContext
        → ContrarianStrategy
        → ContrarianStrategy × List OrderIntent
    on_tick registry ctx s =
        if not s.enabled then (s, []) else check_exits registry ctx (cleaned ctx s)
