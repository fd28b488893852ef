-- ===== src/Strategy/MathArb/Resting.antt =====
-- The cooldown of the arbitrage strategy after a trade.
use poly_bot.Prelude.{
  ℕ, ◌-◌, ◌≡◌, refl, ap, Bool, true, false, not, ◌||◌, Option, none, some, unless-none, unless-true,
  List, [], ◌∷◌, ◌==◌, ltb, arith, is_empty, all, Bool-cases, inl, inr,
}
use poly_bot.Prelude.Dict.{lookup, lookup-insert}
use poly_bot.Decimal.{Decimal, DecimalOps}
use poly_bot.Types.{Key, Side, buy, sell}
use poly_bot.Ledger.Positions.{fill_notional}
use poly_bot.Strategy.MarketPair.{MarketPair, MarketPairRegistry, get_by_token}
use poly_bot.Strategy.Traits.{OrderIntent, StrategyContext}
use poly_bot.Strategy.MathArb.{
  MathArbConfig, MathArbStrategy, is_on_cooldown, record_trade, add_exposure, check_pair,
  check_arb_opportunity, on_book_update, filled, on_fill,
}
use poly_bot.Strategy.MathArb.Checks.{OfTrades, on_book_update-holds}
use poly_bot.Strategy.MathArb.Exposure.{Told, book_updated, order_filled, tell, tell_all}

-- The last trade on the market was at `t`, under this configuration.
pub record HasTraded (market t : ℕ) (config : MathArbConfig) (s : MathArbStrategy) : Type 0 where
  pub last_time : lookup market s.last_trade ≡ some t
  pub same_config : s.config ≡ config

module _ ⦃o : DecimalOps⦄ (parse : Key → Option Decimal) (group_of : ℕ → Key)
    (yes_reason no_reason : Decimal → Key) where
  -- The trade is remembered with its time, when there is one.
  abbrev Remembers :
      (market now : ℕ) → MathArbStrategy → MathArbStrategy × List OrderIntent → Type 0
  Remembers market now s r = is_empty r.1 ≡ false → HasTraded market now s.config r.0

  traded-Remembers :
      (s : MathArbStrategy) (pair : MarketPair) (market now : ℕ)
      → (pair.condition_id == market) ≡ true
      → OfTrades parse group_of yes_reason no_reason s pair now (Remembers market now s)
  unfolding record_trade add_exposure
  traded-Remembers s pair market now e x y size edge h k l some_legs = record {
    last_time = ground (arith, lookup-insert pair.condition_id market now s.last_trade);
    same_config = refl;
  }

  resting_checks :
      (s : MathArbStrategy) (pair : Option MarketPair) (market : Key) (ctx : StrategyContext)
      → is_on_cooldown s market ctx.now ≡ true
      → check_pair parse group_of yes_reason no_reason s pair market ctx ≡ none
  resting_checks s none market ctx h = refl
  resting_checks s (some pair) market ctx h =
      rw (h, unless-true (check_arb_opportunity parse group_of yes_reason no_reason s pair ctx))
        (unless-none (not (pair.condition_id == market)))

  resting :
      (registry : MarketPairRegistry) (market token : Key) (ctx : StrategyContext)
      (s : MathArbStrategy)
      → is_on_cooldown s market ctx.now ≡ true
      → on_book_update parse group_of yes_reason no_reason registry market token ctx s ≡ (s, [])
  unfolding on_book_update
  resting registry market token ctx s h =
      rw
        (
          resting_checks s (get_by_token registry token) market ctx h,
          unless-none {A = MathArbStrategy × List OrderIntent} (not s.enabled),
        )
        refl

  cooling :
      (s : MathArbStrategy) (config : MathArbConfig) (market last now : ℕ)
      → HasTraded market last config s
      → ltb (now - last) config.cooldown_ms ≡ true
      → is_on_cooldown s market now ≡ true
  unfolding is_on_cooldown
  cooling s config market last now h k =
      let last = h.last_time in let same = h.same_config in ground (arith, last, same, k)

  elsewhere_HasTraded :
      (registry : MarketPairRegistry) (market other token t : ℕ) (config : MathArbConfig)
      (ctx : StrategyContext) (s : MathArbStrategy)
      → (other == market) ≡ false
      → HasTraded market t config s
      → HasTraded market t config
          (on_book_update parse group_of yes_reason no_reason registry other token ctx s).0
  unfolding record_trade add_exposure
  elsewhere_HasTraded registry market other token t config ctx s e h =
      on_book_update-holds parse group_of yes_reason no_reason s ctx
        (λ r. HasTraded market t config r.0) registry other token h
        (λ pair f same x y size edge p k l. record {
          last_time =
              let last = h.last_time in
              ground (arith, lookup-insert pair.condition_id market ctx.now s.last_trade);
          same_config = h.same_config;
        })

  filled-HasTraded :
      (side : Side) (notional : Decimal) (market t : ℕ) (config : MathArbConfig)
      (s : MathArbStrategy)
      → HasTraded market t config s
      → HasTraded market t config (filled parse group_of yes_reason no_reason side notional s)
  filled-HasTraded buy notional market t config s h = h
  filled-HasTraded sell notional market t config s h = record {
    last_time = h.last_time;
    same_config = h.same_config;
  }

  module _ (config : MathArbConfig) where
    -- An update of the market's books is told while less than `d` has passed since `t`.
    abbrev pub is_early : (market t d : ℕ) → Told parse group_of yes_reason no_reason config → Bool
    is_early market t d (book_updated registry other token ctx) =
        not (other == market) || ltb (ctx.now - t) d
    is_early market t d (order_filled fill ctx n) = true

    tell-HasTraded :
        (market t : ℕ) (s : MathArbStrategy) (x : Told parse group_of yes_reason no_reason config)
        → is_early market t config.cooldown_ms x ≡ true
        → HasTraded market t config s
        → HasTraded market t config (tell parse group_of yes_reason no_reason config s x)
    unfolding tell on_fill
    tell-HasTraded market t s (order_filled fill ctx n) e h =
        filled-HasTraded fill.side (fill_notional fill) market t config s h
    tell-HasTraded market t s (book_updated registry other token ctx) e h =
        elim (Bool-cases (other == market)) [
          | inr elsewhere ↦
              elsewhere_HasTraded registry market other token t config ctx s elsewhere h
          | inl here ↦
              let same : other ≡ market = ground (arith, here) in
              let cool : is_on_cooldown s other ctx.now ≡ true =
                rw same (cooling s config market t ctx.now h (ground (arith, e, here))) in
              rw (tell, resting registry other token ctx s cool) h
        ]

    tell_all-HasTraded :
        (market t : ℕ) (s : MathArbStrategy)
        (xs : List (Told parse group_of yes_reason no_reason config))
        → all (is_early market t config.cooldown_ms) xs ≡ true
        → HasTraded market t config s
        → HasTraded market t config (tell_all parse group_of yes_reason no_reason config s xs)
    unfolding tell_all
    tell_all-HasTraded market t s [] e h = h
    tell_all-HasTraded market t s (x ∷ xs) e h =
        tell_all-HasTraded market t (tell parse group_of yes_reason no_reason config s x) xs
          (ground arith) (tell-HasTraded market t s x (ground arith) h)

  -- After a trade on a market the strategy wants nothing there until the configured time has
  -- passed, whatever it is told between: any fills of a value that is not negative, any updates of
  -- other markets, with trades there or without, and any updates of this market within that time;
  -- and whatever the books, the cash and the registry are then.
  pub rests_after_trade :
      (registry registry' : MarketPairRegistry) (market token token' : Key)
      (ctx ctx' : StrategyContext) (s : MathArbStrategy)
      (xs : List (Told parse group_of yes_reason no_reason s.config))
      → let r = on_book_update parse group_of yes_reason no_reason registry market token ctx s in
        is_empty r.1 ≡ false
        → all (is_early s.config market ctx.now s.config.cooldown_ms) xs ≡ true
        → ltb (ctx'.now - ctx.now) s.config.cooldown_ms ≡ true
        → (on_book_update parse group_of yes_reason no_reason registry' market token' ctx'
            (tell_all parse group_of yes_reason no_reason s.config r.0 xs)).1
          ≡ []
  rests_after_trade registry registry' market token token' ctx ctx' s xs h e k =
      let r = on_book_update parse group_of yes_reason no_reason registry market token ctx s in
      let remembers : Remembers market ctx.now s r =
        on_book_update-holds parse group_of yes_reason no_reason s ctx (Remembers market ctx.now s)
          registry market token (λ none_wanted. absurd (ground arith))
          (λ q f same. traded-Remembers s q market ctx.now same) in
      let s' = tell_all parse group_of yes_reason no_reason s.config r.0 xs in
      let kept = tell_all-HasTraded s.config market ctx.now r.0 xs e (remembers h) in
      ap (λ r. r.1)
        (resting registry' market token' ctx' s'
          (cooling s' s.config market ctx.now ctx'.now kept k))
