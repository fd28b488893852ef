-- ===== src/Strategy/MathArb/Legs.antt =====
-- What the arbitrage strategy wants to buy, and that the router lets both legs through.
use poly_bot.Prelude.{
  ℕ, ◌≡◌, refl, ap, ◌∙◌, Bool, true, false, not, ◌&&◌, ◌||◌, Option, some, List, [], ◌∷◌, ◌++◌,
  filter, ◌==◌, ==_refl, arith, is_empty,
}
use poly_bot.Decimal.{Decimal, one, eq, le, DecimalOps, add}
use poly_bot.Types.{Key, buy, side_eq}
use poly_bot.Strategy.MarketPair.{MarketPair, MarketPairRegistry, get_by_token}
use poly_bot.Strategy.Traits.{
  OrderIntent, StrategyContext, is_grouped, new_intent, with_group, with_priority, with_tick_size,
}
use poly_bot.Strategy.MathArb.{MathArbStrategy, on_book_update}
use poly_bot.Strategy.MathArb.Checks.{OfTrades, on_book_update-holds}
use poly_bot.Strategy.Router.Conflicts.{resolve_conflicts}
use poly_bot.Strategy.Router.Coverage.{is_grouped_at, grouped-resolve_conflicts}

abbrev same_group : (a b : Option Key) → Bool
same_group (some i) (some j) = i == j
same_group _ _ = false

-- Two buys of the two tokens of a pair, in one group and of one size, which is no less than `least`,
-- at prices that make less than a dollar together.
abbrev pub is_arb : ⦃o : DecimalOps⦄ → MarketPair → (least : Decimal) → List OrderIntent → Bool
is_arb pair least (x ∷ y ∷ []) =
    x.token_id == pair.yes_token_id
    && (y.token_id == pair.no_token_id
        && (side_eq x.side buy
            && (side_eq y.side buy
                && (eq x.size y.size
                    && (le least x.size
                        && (same_group x.group_id y.group_id
                            && not (le one (add x.price y.price))))))))
is_arb pair least _ = false

eq_self : (a : Decimal) → eq a a ≡ true
eq_self a = ground arith

module _ ⦃o : DecimalOps⦄ (parse : Key → Option Decimal) (group_of : ℕ → Key)
    (yes_reason no_reason : Decimal → Key) where
  abbrev WantsArb : MathArbStrategy → MarketPair → MathArbStrategy × List OrderIntent → Type 0
  WantsArb s pair r = (is_empty r.1 || is_arb pair s.config.min_position_size r.1) ≡ true

  traded-WantsArb :
      (s : MathArbStrategy) (pair : MarketPair) (now : ℕ)
      → OfTrades parse group_of yes_reason no_reason s pair now (WantsArb s pair)
  unfolding new_intent with_group with_priority with_tick_size
  traded-WantsArb s pair now x y size edge h k l =
      rw
        (
          ==_refl pair.yes_token_id,
          ==_refl pair.no_token_id,
          eq_self size,
          k,
          ==_refl (group_of s.trade_count),
          h,
        )
        refl

  -- On a book update of a token of a registered pair the strategy wants nothing, or exactly a buy
  -- of each of its two tokens: in one group, of one size that is no less than the configured
  -- minimum, and at prices that make less than a dollar together.
  pub on_book_update-IsArb :
      (registry : MarketPairRegistry) (market token : Key) (ctx : StrategyContext)
      (s : MathArbStrategy) (pair : MarketPair)
      → get_by_token registry token ≡ some pair
      → let intents =
          (on_book_update parse group_of yes_reason no_reason registry market token ctx s).1 in
        (is_empty intents || is_arb pair s.config.min_position_size intents) ≡ true
  on_book_update-IsArb registry market token ctx s pair e =
      on_book_update-holds parse group_of yes_reason no_reason s ctx (WantsArb s pair) registry
        market token refl
        (λ q f same. let same_pair : q ≡ pair = cc in rw same_pair (traded-WantsArb s pair ctx.now))

  abbrev AreGrouped : MathArbStrategy × List OrderIntent → Type 0
  AreGrouped r = filter (is_grouped_at 100) r.1 ≡ r.1

  traded-AreGrouped :
      (s : MathArbStrategy) (pair : MarketPair) (now : ℕ)
      → OfTrades parse group_of yes_reason no_reason s pair now AreGrouped
  unfolding new_intent with_group with_priority with_tick_size is_grouped
  traded-AreGrouped s pair now x y size edge h k l = refl

  filter-append :
      (p : OrderIntent → Bool) (xs ys : List OrderIntent)
      → filter p (xs ++ ys) ≡ filter p xs ++ filter p ys
  filter-append p [] ys = refl
  filter-append p (x ∷ xs) ys = ground (arith, filter-append p xs ys)

  -- The router lets the legs of an arbitrage through, in their order: among whatever intents of
  -- other strategies they come, of the grouped intents at their priority none is dropped or moved.
  pub legs_routed :
      (before after : List OrderIntent) (registry : MarketPairRegistry) (market token : Key)
      (ctx : StrategyContext) (s : MathArbStrategy)
      → let legs =
          (on_book_update parse group_of yes_reason no_reason registry market token ctx s).1 in
        filter (is_grouped_at 100) (resolve_conflicts (before ++ (legs ++ after)))
        ≡ filter (is_grouped_at 100) before ++ (legs ++ filter (is_grouped_at 100) after)
  legs_routed before after registry market token ctx s =
      let legs =
        (on_book_update parse group_of yes_reason no_reason registry market token ctx s).1 in
      let grouped : filter (is_grouped_at 100) legs ≡ legs =
        on_book_update-holds parse group_of yes_reason no_reason s ctx AreGrouped registry market
          token refl (λ q f same. traded-AreGrouped s q ctx.now) in
      grouped-resolve_conflicts 100 (before ++ (legs ++ after))
      ∙ filter-append (is_grouped_at 100) before (legs ++ after)
      ∙ ap (λ xs. filter (is_grouped_at 100) before ++ xs)
          (filter-append (is_grouped_at 100) legs after
            ∙ ap (λ xs. xs ++ filter (is_grouped_at 100) after) grouped)
