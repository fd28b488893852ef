-- ===== src/Strategy/Router/Examples.antt =====
-- The router's theorems on concrete runs, with strategies that want one share of the token.
use poly_bot.Prelude.{ℕ, ◌≡◌, refl, true, Option, none, some, List, [], ◌∷◌, All, any}
use poly_bot.Decimal.{dec}
use poly_bot.Types.{Key, buy}
use poly_bot.Strategy.Traits.{is_grouped, OrderIntent, Strategy}
use poly_bot.Execution.Policy.{normal}
use poly_bot.Strategy.Router.{
  StrategyRouter, new, register, unregister, is_enabled, done, failed, strategy_already_registered,
}
use poly_bot.Strategy.Router.Conflicts.{
  key_eq, has_seen, is_dropped, sort_in, by_priority, kept, resolve_conflicts,
}
use poly_bot.Strategy.Router.Resolution.{is_descending, is_conflict_free, resolve_conflicts_lem}
use poly_bot.Strategy.Router.Coverage.{outranks, resolve_conflicts-covers}
use poly_bot.Strategy.Router.Registration.{register_lem}

abbrev wanted : (priority : ℕ) → Option Key → (strategy : Key) → OrderIntent
wanted priority group strategy = record {
  market_id = 1;
  token_id = 2;
  side = buy;
  price = dec 50 2;
  size = dec 10 0;
  urgency = normal;
  reason = 0;
  strategy_name = strategy;
  group_id = group;
  priority = priority;
  tick_size = dec 1 2;
  market_desc = 0;
  created_at = 5;
}

abbrev wishes : List OrderIntent
wishes = wanted 50 none 1 ∷ wanted 100 none 2 ∷ wanted 50 (some 9) 3 ∷ wanted 50 none 4 ∷ []

-- The strategies of lower priority lose, the grouped intent stays.
resolve_runs : resolve_conflicts wishes ≡ wanted 100 none 2 ∷ wanted 50 (some 9) 3 ∷ []
unfolding resolve_conflicts kept by_priority sort_in is_dropped is_grouped has_seen key_eq
resolve_runs = refl

resolve_conflicts_lem_example :
    (is_descending (resolve_conflicts wishes) ≡ true)
    × (is_conflict_free (resolve_conflicts wishes) ≡ true)
resolve_conflicts_lem_example = resolve_conflicts_lem wishes

resolve_conflicts-covers_example :
    All (λ y. any (outranks y) (resolve_conflicts wishes) ≡ true) wishes
resolve_conflicts-covers_example = resolve_conflicts-covers wishes

-- A strategy whose state is its priority, which is its name too.
instance abbrev wisher : Strategy ℕ
wisher = record {
  name = λ p. p;
  subscribed_markets = λ p. [];
  on_book_update = λ market token ctx p. (p, wanted p none p ∷ []);
  on_fill = λ fill ctx p. (p, []);
  on_tick = λ ctx p. (p, wanted p none p ∷ []);
  on_shutdown = λ ctx p. (p, []);
  priority = λ p. p;
  is_enabled = λ p. true;
}

abbrev one_wisher : StrategyRouter ℕ
unfolding new register
one_wisher = (register new 50).0

register_lem_example :
    ((register one_wisher 60).1 ≡ done)
    × (is_enabled (register one_wisher 60).0 60 ≡ true)
    × (register (register one_wisher 60).0 60
        ≡ ((register one_wisher 60).0, failed (strategy_already_registered 60)))
    × (unregister (register one_wisher 60).0 60 ≡ (one_wisher, done))
unfolding one_wisher
register_lem_example = register_lem one_wisher 60 refl
