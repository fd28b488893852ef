-- ===== src/Strategy/Router/Dispatch.antt =====
-- Which strategies an event reaches.
use poly_bot.Prelude.{◌≡◌, refl, ap, false, List, [], ◌∷◌, arith}
use poly_bot.Prelude.Dict.{erase, adjust}
use poly_bot.Types.{Key}
use poly_bot.Ledger.Positions.{Fill}
use poly_bot.Strategy.Traits.{OrderIntent, StrategyContext, Strategy}
use poly_bot.Strategy.Router.{
  RegisteredStrategy, StrategyRouter, strategy_names, dispatch, visit_book, visit_fill, visit_tick,
  visit_shutdown, on_book_update, on_fill, on_tick, on_shutdown, disable, unregister, resolved,
}
use poly_bot.Strategy.Router.Conflicts.{resolve_conflicts}

module _ {S : Type 0} where
  -- An event leaves the names as they are.
  names-dispatch :
      (visit : RegisteredStrategy S → RegisteredStrategy S × List OrderIntent)
      (r : StrategyRouter S)
      → strategy_names (dispatch visit r).0 ≡ strategy_names r
  unfolding strategy_names dispatch
  names-dispatch visit [] = refl
  names-dispatch visit ((name, reg) ∷ r) = ap (λ names. name ∷ names) (names-dispatch visit r)

  abbrev turned_off : RegisteredStrategy S → RegisteredStrategy S
  turned_off reg = record reg { enabled = false }

  -- Where a visit returns nothing for a strategy that is off, turning one off or erasing it is the
  -- same to what the others return.
  silent :
      (visit : RegisteredStrategy S → RegisteredStrategy S × List OrderIntent)
      → ((reg : RegisteredStrategy S) → (visit (turned_off reg)).1 ≡ [])
      → (name : Key) (r : StrategyRouter S)
      → (dispatch visit (adjust name turned_off r)).1 ≡ (dispatch visit (erase name r)).1
  unfolding dispatch
  silent visit h name [] = refl
  silent visit h name ((i, reg) ∷ r) = ground (arith, silent visit h name r, h reg)

  module _ ⦃t : Strategy S⦄ where
    disabled :
        (visit : RegisteredStrategy S → RegisteredStrategy S × List OrderIntent)
        → ((reg : RegisteredStrategy S) → (visit (turned_off reg)).1 ≡ [])
        → (r : StrategyRouter S) (name : Key)
        → (dispatch visit (disable r name).0).1 ≡ (dispatch visit (unregister r name).0).1
    unfolding disable unregister
    disabled visit h r name = ground (arith, silent visit h name r)

    -- To book updates, fills and ticks a disabled strategy is as good as unregistered: the router
    -- returns the same intents.
    pub disable-unregister :
        (r : StrategyRouter S) (name market_id token_id : Key) (fill : Fill) (ctx : StrategyContext)
        → ((on_book_update (disable r name).0 market_id token_id ctx).1
            ≡ (on_book_update (unregister r name).0 market_id token_id ctx).1)
          × ((on_fill (disable r name).0 fill ctx).1 ≡ (on_fill (unregister r name).0 fill ctx).1)
          × ((on_tick (disable r name).0 ctx).1 ≡ (on_tick (unregister r name).0 ctx).1)
    unfolding on_book_update on_fill on_tick visit_book visit_fill visit_tick
    disable-unregister r name market_id token_id fill ctx = (
      ap resolve_conflicts (disabled (visit_book market_id token_id ctx) (λ reg. refl) r name),
      ap resolve_conflicts (disabled (visit_fill fill ctx) (λ reg. refl) r name),
      ap resolve_conflicts (disabled (visit_tick ctx) (λ reg. refl) r name),
    )

    visited :
        (f : RegisteredStrategy S → RegisteredStrategy S × List OrderIntent) (r : StrategyRouter S)
        → strategy_names (resolved (dispatch f r)).0 ≡ strategy_names r
    visited f r = names-dispatch f r

    -- No event registers or unregisters a strategy.
    pub events_keep_names :
        (r : StrategyRouter S) (market_id token_id : Key) (fill : Fill) (ctx : StrategyContext)
        → (strategy_names (on_book_update r market_id token_id ctx).0 ≡ strategy_names r)
          × (strategy_names (on_fill r fill ctx).0 ≡ strategy_names r)
          × (strategy_names (on_tick r ctx).0 ≡ strategy_names r)
          × (strategy_names (on_shutdown r ctx).0 ≡ strategy_names r)
    unfolding on_book_update on_fill on_tick on_shutdown
    events_keep_names r market_id token_id fill ctx = (
      visited (visit_book market_id token_id ctx) r,
      visited (visit_fill fill ctx) r,
      visited (visit_tick ctx) r,
      visited (visit_shutdown ctx) r,
    )
