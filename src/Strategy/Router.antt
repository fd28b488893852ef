-- ===== src/Strategy/Router.antt =====
-- src/strategy/router.rs: `StrategyRouter`, which passes events to the registered strategies and
-- resolves the conflicts between what they want. Strategies have states in `S` and the operations
-- of the trait. The iteration over the map takes its entries in the order of the list.
pub mod Conflicts
pub mod Resolution
pub mod Coverage
pub mod Dispatch
pub mod Registration
mod Examples
use poly_bot.Prelude.{
  ◌==◌, ℕ, ◌+◌, Bool, true, false, not, ◌&&◌, ◌||◌, Option, none, some, List, [], ◌∷◌, ◌++◌, map,
  length, contains, is_empty, u64, is_some, if◌then◌else◌,
}
use poly_bot.Prelude.Dict.{Dict, lookup, insert, erase, adjust}
use poly_bot.Types.{Key}
use poly_bot.Ledger.Positions.{Fill}
use poly_bot.Strategy.Traits.{OrderIntent, StrategyContext, Strategy}
use poly_bot.Strategy.Router.Conflicts.{resolve_conflicts}

pub data RouterError : Type 0 where
  strategy_already_registered : Key → RouterError
  strategy_not_found : Key → RouterError

-- `Result<(), RouterError>`
pub data RouterResult : Type 0 where
  done : RouterResult
  failed : RouterError → RouterResult

pub record RegisteredStrategy (S : Type 0) : Type 0 where
  pub strategy : S
  pub enabled : Bool
  pub subscribed_markets : List Key
  pub eval_count : ℕ
  pub intent_count : ℕ

abbrev pub StrategyRouter : Type 0 → Type 0
StrategyRouter S = Dict (RegisteredStrategy S)

module _ {S : Type 0} where
  unfoldable pub new : StrategyRouter S
  new = []

  unfoldable pub unregister : StrategyRouter S → Key → StrategyRouter S × RouterResult
  unregister r name =
      if is_some (lookup name r)
      then (erase name r, done)
      else (r, failed (strategy_not_found name))

  abbrev pub set_enabled : Bool → StrategyRouter S → Key → StrategyRouter S × RouterResult
  set_enabled b r name =
      if is_some (lookup name r)
      then (adjust name (λ (reg : RegisteredStrategy S). record reg { enabled = b }) r, done)
      else (r, failed (strategy_not_found name))

  unfoldable pub enable : StrategyRouter S → Key → StrategyRouter S × RouterResult
  enable r name = set_enabled true r name

  unfoldable pub disable : StrategyRouter S → Key → StrategyRouter S × RouterResult
  disable r name = set_enabled false r name

  unfoldable pub strategy_names : StrategyRouter S → List Key
  strategy_names = map (λ (e : Key × RegisteredStrategy S). e.0)

  abbrev pub zeroed : RegisteredStrategy S → RegisteredStrategy S
  zeroed reg = record reg { eval_count = 0; intent_count = 0 }

  unfoldable pub reset_evaluation_counts : StrategyRouter S → StrategyRouter S
  reset_evaluation_counts [] = []
  reset_evaluation_counts ((name, reg) ∷ r) = (name, zeroed reg) ∷ reset_evaluation_counts r

  -- One event for every registered strategy, the intents in the order of the map.
  unfoldable pub dispatch :
      (RegisteredStrategy S → RegisteredStrategy S × List OrderIntent)
      → StrategyRouter S
      → StrategyRouter S × List OrderIntent
  dispatch visit [] = ([], [])
  dispatch visit ((name, reg) ∷ r) =
      let (reg', intents) = visit reg in
      let (r', all_intents) = dispatch visit r in ((name, reg') ∷ r', intents ++ all_intents)

  module _ ⦃t : Strategy S⦄ where
    unfoldable pub register : StrategyRouter S → S → StrategyRouter S × RouterResult
    register r s =
        if is_some (lookup (t.name s) r)
        then (r, failed (strategy_already_registered (t.name s)))
        else (
          insert (t.name s)
              (record {
                strategy = s;
                enabled = true;
                subscribed_markets = t.subscribed_markets s;
                eval_count = 0;
                intent_count = 0;
              })
              r,
          done,
        )

    abbrev pub is_active : RegisteredStrategy S → Bool
    is_active reg = reg.enabled && t.is_enabled reg.strategy

    unfoldable pub is_enabled : StrategyRouter S → Key → Bool
    is_enabled r name = elim (lookup name r) [ none ↦ false | some reg ↦ is_active reg ]

    unfoldable pub evaluation_counts : StrategyRouter S → Dict (ℕ × ℕ)
    evaluation_counts [] = []
    evaluation_counts ((name, reg) ∷ r) =
        let rest = evaluation_counts r in
        if is_active reg then (name, (reg.eval_count, reg.intent_count)) ∷ rest else rest

    unfoldable pub is_subscribed : Key → RegisteredStrategy S → Bool
    is_subscribed market_id reg =
        is_empty reg.subscribed_markets || contains market_id reg.subscribed_markets

    -- the strategy runs, with what it returns
    abbrev pub after :
        RegisteredStrategy S → S × List OrderIntent → RegisteredStrategy S × List OrderIntent
    after reg (s, intents) = (record reg { strategy = s }, intents)

    -- `fetch_add` on both counters; the second adds nothing when there are no intents
    abbrev pub counted :
        RegisteredStrategy S × List OrderIntent → RegisteredStrategy S × List OrderIntent
    counted (reg, intents) = (
      record reg {
        eval_count = u64 (reg.eval_count + 1);
        intent_count =
            if is_empty intents then reg.intent_count else u64 (reg.intent_count + length intents);
      },
      intents,
    )

    unfoldable pub visit_book :
        (market_id token_id : Key)
        → StrategyContext
        → RegisteredStrategy S
        → RegisteredStrategy S × List OrderIntent
    visit_book market_id token_id ctx reg =
        if not (is_active reg)
        then (reg, [])
        else if not (is_subscribed market_id reg)
        then (reg, [])
        else counted (after reg (t.on_book_update market_id token_id ctx reg.strategy))

    unfoldable pub visit_fill :
        Fill → StrategyContext → RegisteredStrategy S → RegisteredStrategy S × List OrderIntent
    visit_fill fill ctx reg =
        if not (is_active reg) then (reg, []) else after reg (t.on_fill fill ctx reg.strategy)

    unfoldable pub visit_tick :
        StrategyContext → RegisteredStrategy S → RegisteredStrategy S × List OrderIntent
    visit_tick ctx reg =
        if not (is_active reg) then (reg, []) else after reg (t.on_tick ctx reg.strategy)

    unfoldable pub visit_shutdown :
        StrategyContext → RegisteredStrategy S → RegisteredStrategy S × List OrderIntent
    visit_shutdown ctx reg = after reg (t.on_shutdown ctx reg.strategy)

    abbrev pub resolved : StrategyRouter S × List OrderIntent → StrategyRouter S × List OrderIntent
    resolved (r, intents) = (r, resolve_conflicts intents)

    unfoldable pub on_book_update :
        StrategyRouter S
        → (market_id token_id : Key) → StrategyContext
        → StrategyRouter S × List OrderIntent
    on_book_update r market_id token_id ctx =
        resolved (dispatch (visit_book market_id token_id ctx) r)

    unfoldable pub on_fill :
        StrategyRouter S → Fill → StrategyContext → StrategyRouter S × List OrderIntent
    on_fill r fill ctx = resolved (dispatch (visit_fill fill ctx) r)

    unfoldable pub on_tick :
        StrategyRouter S → StrategyContext → StrategyRouter S × List OrderIntent
    on_tick r ctx = resolved (dispatch (visit_tick ctx) r)

    unfoldable pub on_shutdown :
        StrategyRouter S → StrategyContext → StrategyRouter S × List OrderIntent
    on_shutdown r ctx = dispatch (visit_shutdown ctx) r
