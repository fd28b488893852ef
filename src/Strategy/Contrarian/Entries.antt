-- ===== src/Strategy/Contrarian/Entries.antt =====
-- src/strategy/contrarian.rs: the purchase of a token whose price has dropped.
use poly_bot.Prelude.{
  unwrap_or, ℕ, ◌+◌, not, Option, none, some, unless, List, [], ◌∷◌, is_some, u64, if◌then◌else◌,
}
use poly_bot.Prelude.Dict.{lookup, insert}
use poly_bot.Decimal.{
  Decimal, dec, nought, one, neg, eq, lt, le, min, max, DecimalOps, sub, mul, div, truncate,
}
use poly_bot.Types.{Key, buy}
use poly_bot.Ledger.Positions.{is_flat}
use poly_bot.State.OrderBook.{best_ask, mid_price, bid_depth}
use poly_bot.Execution.Policy.{normal}
use poly_bot.Strategy.MarketPair.{MarketPair, MarketPairRegistry, get_by_token, complement}
use poly_bot.Strategy.Traits.{
  OrderIntent, StrategyContext, new_intent, with_priority, with_tick_size,
}
use poly_bot.Strategy.Contrarian.{
  ContrarianStrategy, is_on_cooldown, effective_min_edge, history_of, update_price_history, oldest,
  position_of,
}

module _ ⦃o : DecimalOps⦄ where
  abbrev pub drop_bps : (newest oldest : Decimal) → Option Decimal
  drop_bps mid_now mid_old =
      if eq mid_old nought
      then none
      else some (mul (div (sub mid_now mid_old) mid_old) (dec 10_000 0))

  abbrev pub velocity_of : List (ℕ × Decimal) → Option Decimal
  velocity_of [] = none
  velocity_of (e ∷ []) = none
  velocity_of (e ∷ f ∷ fs) = drop_bps e.1 (oldest f fs).1

  unfoldable pub compute_velocity : ContrarianStrategy → Key → Option Decimal
  compute_velocity s token_id = velocity_of (history_of (lookup token_id s.price_history))

  -- one less the mid price of the complement, between five and 95 cents
  abbrev pub fair_of : Decimal → Decimal
  fair_of no_mid = min (max (sub one no_mid) (dec 5 2)) (dec 95 2)

  abbrev pub shares_for : ContrarianStrategy → (ask : Decimal) → Decimal
  shares_for s ask = truncate 2 (div s.config.max_bet_usd ask)

  module _ (parse : Key → Option Decimal) (entry_reason : (drop edge fair : Decimal) → Key) where
    abbrev pub entry_intent :
        ContrarianStrategy
        → MarketPair
        → (token_id : Key) → (ask velocity edge fair : Decimal) → ℕ
        → OrderIntent
    entry_intent s pair token_id ask velocity edge fair now =
        with_priority
          (with_tick_size
            (new_intent pair.condition_id token_id buy ask (shares_for s ask) normal
              (entry_reason velocity edge fair) s.name now)
            pair.tick_size)
          60

    -- The gates on the edge, the liquidity, the complement and the size.
    abbrev pub gated :
        ContrarianStrategy
        → MarketPair
        → (token_id complement_id : Key) → (velocity ask no_mid : Decimal) → StrategyContext
        → Option OrderIntent
    gated s pair token_id complement_id velocity ask no_mid ctx =
        let fair = fair_of no_mid in
        let edge = sub fair ask in
        let depth = unwrap_or (bid_depth parse ctx.books token_id) nought in
        unless (lt edge (effective_min_edge s pair)) (
          unless (lt depth s.config.min_bid_depth) (
            unless (not (is_flat (position_of ctx complement_id))) (
              unless (le (shares_for s ask) nought) (
                unless (lt (mul (shares_for s ask) ask) s.config.min_bet_usd)
                  (some (entry_intent s pair token_id ask velocity edge fair ctx.now))))))

    abbrev pub priced :
        ContrarianStrategy
        → MarketPair
        → (token_id : Key) → (velocity : Decimal) → StrategyContext
        → Option OrderIntent
    priced s pair token_id velocity ctx = elim (complement pair token_id) [
      | none ↦ none
      | some complement_id ↦ elim (best_ask parse ctx.books token_id) [
        | none ↦ none
        | some ask ↦ elim (mid_price parse ctx.books complement_id) [
          | none ↦ none
          | some no_mid ↦ gated s pair token_id complement_id velocity ask no_mid ctx
        ]
      ]
    ]

    abbrev pub entry_of :
        ContrarianStrategy → MarketPair → (token_id : Key) → StrategyContext → Option OrderIntent
    entry_of s pair token_id ctx = unless (is_on_cooldown s pair.condition_id ctx.now) (
        unless (not (is_flat (position_of ctx token_id))) (
          unless (is_some (lookup token_id s.pending_exit)) (elim (compute_velocity s token_id) [
            | none ↦ none
            | some velocity ↦
                unless (lt (neg s.config.min_move_bps) velocity)
                  (priced s pair token_id velocity ctx)
          ])))

    unfoldable pub check_entry :
        MarketPairRegistry → ContrarianStrategy → Key → StrategyContext → Option OrderIntent
    check_entry registry s token_id ctx = elim (get_by_token registry token_id) [
      | none ↦ none
      | some pair ↦ entry_of s pair token_id ctx
    ]

    abbrev pub entered :
        ContrarianStrategy → Option OrderIntent → ℕ → ContrarianStrategy × List OrderIntent
    entered s none now = (s, [])
    entered s (some x) now = (
      record s {
        last_trade = insert x.market_id now s.last_trade;
        trade_count = u64 (s.trade_count + 1);
      },
      x ∷ [],
    )

    unfoldable pub on_book_update :
        MarketPairRegistry
        → (market_id token_id : Key) → StrategyContext
        → ContrarianStrategy
        → ContrarianStrategy × List OrderIntent
    on_book_update registry market_id token_id ctx s =
        if not s.enabled then (s, []) else elim (mid_price parse ctx.books token_id) [
          | none ↦ (s, [])
          | some mid ↦
              let s' = update_price_history s token_id mid ctx.now in
              entered s' (check_entry registry s' token_id ctx) ctx.now
        ]
