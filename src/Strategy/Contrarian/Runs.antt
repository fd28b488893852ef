-- ===== src/Strategy/Contrarian/Runs.antt =====
-- A run of the strategy from a buy to the tick that has to sell it.
use poly_bot.Prelude.{
  ℕ, ◌-◌, ◌/◌, ◌≡◌, refl, Bool, true, false, ◌||◌, Option, none, some, List, [], ◌∷◌, ◌++◌, all,
  any, leb, arith, Bool-cases, Option-cases, inl, inr,
}
use poly_bot.Prelude.Dict.{lookup, lookup-insert}
use poly_bot.Decimal.{Decimal, DecimalOps}
use poly_bot.Types.{Key, buy}
use poly_bot.Ledger.Positions.{Fill}
use poly_bot.State.OrderBook.{mid_price}
use poly_bot.Strategy.MarketPair.{MarketPairRegistry}
use poly_bot.Strategy.Traits.{OrderIntent, StrategyContext}
use poly_bot.Strategy.Contrarian.{
  ContrarianConfig, ContrarianStrategy, ExitReason, on_fill, update_price_history,
}
use poly_bot.Strategy.Contrarian.Entries.{on_book_update, entered, check_entry}
use poly_bot.Strategy.Contrarian.Exits.{on_tick}
use poly_bot.Strategy.Contrarian.Sales.{is_sale_of, CanSell, tick_sells}
use poly_bot.Strategy.Contrarian.Tracking.{
  Event, book_updated, filled, ticked, keeps, Tracks, on_fill-Tracks, tick-Tracks,
}

any_append :
    (f : OrderIntent → Bool) (xs ys : List OrderIntent) → any f (xs ++ ys) ≡ (any f xs || any f ys)
any_append f [] ys = refl
any_append f (x ∷ xs) ys = ground (arith, any_append f xs ys)

module _ ⦃o : DecimalOps⦄ (parse : Key → Option Decimal) (exit_reason : ExitReason → Key)
    (registry : MarketPairRegistry) where
  module _ (entry_reason : (drop edge fair : Decimal) → Key) where
    unfoldable pub tell : ContrarianStrategy → Event → ContrarianStrategy × List OrderIntent
    tell s (book_updated market_id token_id ctx) =
        on_book_update parse entry_reason registry market_id token_id ctx s
    tell s (filled f ctx) = on_fill f ctx s
    tell s (ticked ctx) = on_tick parse exit_reason registry ctx s

    -- all that the strategy wants over the events
    unfoldable pub tell_all : ContrarianStrategy → List Event → List OrderIntent
    tell_all s [] = []
    tell_all s (e ∷ es) = let (s', xs) = tell s e in xs ++ tell_all s' es

    entered-Tracks :
        (config : ContrarianConfig) (k t : ℕ) (s : ContrarianStrategy) (x : Option OrderIntent)
        (now : ℕ)
        → Tracks config k t s
        → Tracks config k t (entered parse entry_reason s x now).0
    entered-Tracks config k t s none now h = h
    entered-Tracks config k t s (some x) now h = record {
      is_on = h.is_on;
      same_config = h.same_config;
      price = h.price;
      entry = h.entry;
      unsold = h.unsold;
    }

    on_book_update-Tracks :
        (config : ContrarianConfig) (k t market_id token_id : ℕ) (ctx : StrategyContext)
        (s : ContrarianStrategy)
        → Tracks config k t s
        → Tracks config k t (on_book_update parse entry_reason registry market_id token_id ctx s).0
    unfolding on_book_update update_price_history
    on_book_update-Tracks config k t market_id token_id ctx s h =
        let on = h.is_on in
        elim (Option-cases (mid_price parse ctx.books token_id)) [
          | inl unpriced ↦ rw (on, unpriced) h
          | inr (mid, priced) ↦
              let s' = update_price_history s token_id mid ctx.now in
              rw (on, priced)
                (entered-Tracks config k t s'
                  (check_entry parse entry_reason registry s' token_id ctx) ctx.now
                  (record {
                    is_on = h.is_on;
                    same_config = h.same_config;
                    price = h.price;
                    entry = h.entry;
                    unsold = h.unsold;
                  }))
        ]

    tell-Tracks :
        (config : ContrarianConfig) (k t : ℕ) (s : ContrarianStrategy) (e : Event)
        → keeps k e ≡ true
        → any (is_sale_of k) (tell s e).1 ≡ false
        → Tracks config k t s
        → Tracks config k t (tell s e).0
    unfolding tell
    tell-Tracks config k t s (book_updated market_id token_id ctx) q n h =
        on_book_update-Tracks config k t market_id token_id ctx s h
    tell-Tracks config k t s (filled f ctx) q n h = on_fill-Tracks config k t f ctx s q h
    tell-Tracks config k t s (ticked ctx) q n h =
        tick-Tracks parse exit_reason registry config k t ctx s (ground arith) n h

    run_sells :
        (config : ContrarianConfig) (k t : ℕ) (ctx : StrategyContext) (s : ContrarianStrategy)
        (es : List Event)
        → all (keeps k) es ≡ true
        → CanSell parse registry ctx k
        → leb config.max_hold_secs ((ctx.now - t) / 1000) ≡ true
        → Tracks config k t s
        → any (is_sale_of k) (tell_all s (es ++ (ticked ctx ∷ []))) ≡ true
    unfolding tell_all tell
    run_sells config k t ctx s [] q c due h =
        let same = h.same_config in
        let sold : any (is_sale_of k) (on_tick parse exit_reason registry ctx s).1 ≡ true =
          tick_sells parse exit_reason registry ctx s k h.price t h.is_on c h.entry h.unsold
            (rw same due) in
        rw (any_append (is_sale_of k) (on_tick parse exit_reason registry ctx s).1 [])
          (rw sold refl)
    run_sells config k t ctx s (e ∷ es) q c due h =
        let (s', xs) = tell s e in
        rw (any_append (is_sale_of k) xs (tell_all s' (es ++ (ticked ctx ∷ []))))
          (elim (Bool-cases (any (is_sale_of k) xs)) [
            | inl sold ↦ rw sold refl
            | inr unsold ↦ rw unsold (
                run_sells config k t ctx s' es (ground arith) c due
                  (tell-Tracks config k t s e (ground arith) unsold h))
          ])

    -- Whoever has bought the token, the strategy, if enabled, sells it: among what it wants over a
    -- buy fill of a token that it does not track and has no sale of pending, then any book updates,
    -- ticks at which the token is held, and fills that are not sales of it, and then a tick at
    -- which the token has been held for the configured time and can be sold, there is a sale of the
    -- token.
    pub sells_any_buy :
        (f : Fill) (ctx ctx' : StrategyContext) (s : ContrarianStrategy) (es : List Event)
        → f.side ≡ buy
        → s.enabled ≡ true
        → lookup f.token_id s.entry_tracking ≡ none
        → lookup f.token_id s.pending_exit ≡ none
        → all (keeps f.token_id) es ≡ true
        → CanSell parse registry ctx' f.token_id
        → leb s.config.max_hold_secs ((ctx'.now - ctx.now) / 1000) ≡ true
        → any (is_sale_of f.token_id) (tell_all s (filled f ctx ∷ (es ++ (ticked ctx' ∷ []))))
          ≡ true
    unfolding tell_all tell on_fill
    sells_any_buy f ctx ctx' s es b en e n q c due =
        rw (b, e)
          (run_sells s.config f.token_id ctx.now ctx' _ es q c due (record {
            is_on = en;
            same_config = refl;
            price = f.price;
            entry =
                rw (lookup-insert f.token_id f.token_id (f.price, ctx.now) s.entry_tracking)
                  (ground arith);
            unsold = n;
          }))
