-- ===== src/Strategy/Contrarian/Interface.antt =====
-- src/strategy/contrarian.rs: `ContrarianStrategy` as an implementation of the trait.
use poly_bot.Prelude.{Option, List, []}
use poly_bot.Decimal.{Decimal, DecimalOps}
use poly_bot.Types.{Key}
use poly_bot.Strategy.MarketPair.{MarketPairRegistry}
use poly_bot.Strategy.Traits.{OrderIntent, StrategyContext, Strategy, default_subscribed_markets}
use poly_bot.Strategy.Contrarian.{ContrarianStrategy, ExitReason, on_fill}
use poly_bot.Strategy.Contrarian.Entries.{on_book_update}
use poly_bot.Strategy.Contrarian.Exits.{on_tick}

unfoldable pub on_shutdown :
    StrategyContext → ContrarianStrategy → ContrarianStrategy × List OrderIntent
on_shutdown ctx s = (s, [])

module _ ⦃o : DecimalOps⦄ (parse : Key → Option Decimal)
    (entry_reason : (drop edge fair : Decimal) → Key) (exit_reason : ExitReason → Key) where
  -- the implementation of the trait
  unfoldable pub contrarian : MarketPairRegistry → Strategy ContrarianStrategy
  contrarian registry = record {
    name = λ s. s.name;
    subscribed_markets = default_subscribed_markets;
    on_book_update = on_book_update parse entry_reason registry;
    on_fill = on_fill;
    on_tick = on_tick parse exit_reason registry;
    on_shutdown = on_shutdown;
    priority = λ s. 60;
    is_enabled = λ s. s.enabled;
  }
