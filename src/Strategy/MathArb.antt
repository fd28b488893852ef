-- ===== src/Strategy/MathArb.antt =====
-- src/strategy/arbitrage.rs: `MathArbStrategy`, which buys both tokens of a pair when together they
-- cost less than a dollar. Its state is its own; the registry of pairs is shared and so an argument.
-- `group_of` makes the text of a group from the drawn UUID, which is the one for the current number
-- of trades, and the two reasons are texts made from the edge. Times are in milliseconds.
pub mod Checks
pub mod Exposure
pub mod Legs
pub mod Resting
mod Examples
use poly_bot.Prelude.{
  ℕ, ◌+◌, ◌-◌, Bool, true, false, not, ◌&&◌, ◌||◌, Option, none, some, unless, unwrap_or, List, [],
  ◌∷◌, u64, ltb, leb, ◌==◌, if◌then◌else◌,
}
use poly_bot.Prelude.Dict.{Dict, lookup, insert}
use poly_bot.Decimal.{
  Decimal, dec, nought, one, eq, lt, le, min, max, DecimalOps, add, sub, mul, div, ceil, truncate,
}
use poly_bot.Types.{Key, Side, buy, sell}
use poly_bot.Ledger.Positions.{Fill, fill_notional}
use poly_bot.State.OrderBook.{BookSnapshot, get_book}
use poly_bot.State.OrderBook.Snapshot.{book_is_two_sided}
use poly_bot.Execution.Policy.{Urgency, immediate, passive}
use poly_bot.Strategy.MarketPair.{MarketPair, MarketPairRegistry, get_by_token, all_condition_ids}
use poly_bot.Strategy.EdgeCalculator.{
  EdgeConfig, EdgeCalculation, taker, maker, calculate, quick_check,
}
use poly_bot.Strategy.Traits.{
  OrderIntent, StrategyContext, Strategy, new_intent, with_group, with_priority, with_tick_size,
}

pub record MathArbConfig : Type 0 where
  pub min_edge : Decimal
  pub max_position_size : Decimal
  pub min_position_size : Decimal
  pub max_bet_usd : Decimal
  pub max_total_exposure : Decimal
  pub cooldown_ms : ℕ
  pub use_maker_execution : Bool

abbrev pub taker_config : MathArbConfig
taker_config = record {
  min_edge = dec 3 2;
  max_position_size = dec 500 0;
  min_position_size = dec 1 0;
  max_bet_usd = dec 5 0;
  max_total_exposure = dec 2000 0;
  cooldown_ms = 1000;
  use_maker_execution = false;
}

abbrev pub maker_config : MathArbConfig
maker_config = record taker_config { min_edge = dec 1 2; use_maker_execution = true }

pub record MathArbStrategy : Type 0 where
  pub name : Key
  pub config : MathArbConfig
  pub edge_config : EdgeConfig
  pub enabled : Bool
  pub last_trade : Dict ℕ
  pub trade_count : ℕ
  pub current_exposure : Decimal

-- the text `MathArbStrategy`
abbrev pub math_arb_name : Key
math_arb_name = 21

unfoldable pub with_config : MathArbConfig → MathArbStrategy
with_config config = record {
  name = math_arb_name;
  config = config;
  edge_config = if config.use_maker_execution then maker else taker;
  enabled = true;
  last_trade = [];
  trade_count = 0;
  current_exposure = nought;
}

unfoldable pub set_enabled : MathArbStrategy → Bool → MathArbStrategy
set_enabled s enabled = record s { enabled = enabled }

unfoldable pub is_on_cooldown : MathArbStrategy → Key → ℕ → Bool
is_on_cooldown s condition_id now = elim (lookup condition_id s.last_trade) [
  | none ↦ false
  | some last ↦ ltb (now - last) s.config.cooldown_ms
]

unfoldable pub record_trade : MathArbStrategy → Key → ℕ → MathArbStrategy
record_trade s condition_id now = record s {
  last_trade = insert condition_id now s.last_trade;
  trade_count = u64 (s.trade_count + 1);
}

-- `EXCHANGE_MIN_ORDER_USDC` of src/constants.rs
abbrev pub exchange_min_order_usdc : Decimal
exchange_min_order_usdc = dec 1 0

abbrev pub urgency_of : MathArbConfig → Urgency
urgency_of config = if config.use_maker_execution then passive else immediate

module _ ⦃o : DecimalOps⦄ where
  unfoldable pub round_up_to_tick : (price tick_size : Decimal) → Decimal
  round_up_to_tick price tick_size =
      if eq tick_size nought then price else mul (ceil (div price tick_size)) tick_size

  unfoldable pub check_exposure_limit : MathArbStrategy → (additional : Decimal) → Bool
  check_exposure_limit s additional =
      le (add s.current_exposure additional) s.config.max_total_exposure

  unfoldable pub add_exposure : MathArbStrategy → Decimal → MathArbStrategy
  add_exposure s amount = record s { current_exposure = add s.current_exposure amount }

  -- `amount / combined` where the asks are positive together
  abbrev pub share_of : (amount combined : Decimal) → Decimal
  share_of amount combined = if lt nought combined then div amount combined else nought

  -- The least of the five limits, not negative, cut to two places.
  unfoldable pub trade_size_of : MathArbStrategy → (available max_size combined : Decimal) → Decimal
  trade_size_of s available max_size combined =
      let by_exposure = div (sub s.config.max_total_exposure s.current_exposure) (dec 2 0) in
      truncate 2 (
        max
          (min
            (min (min (min max_size s.config.max_position_size) by_exposure)
              (share_of available combined))
            (share_of s.config.max_bet_usd combined))
          nought)

  unfoldable pub effective_min : MathArbStrategy → (cheaper_ask : Decimal) → Decimal
  effective_min s cheaper_ask =
      max (if lt nought cheaper_ask then ceil (div exchange_min_order_usdc cheaper_ask) else one)
        s.config.min_position_size

  -- Rounded prices are checked again when rounding has changed one of them.
  unfoldable pub is_eroded : MathArbStrategy → (yes_raw no_raw yes_ask no_ask : Decimal) → Bool
  is_eroded s yes_raw no_raw yes_ask no_ask =
      let combined = add yes_ask no_ask in
      (not (eq yes_ask yes_raw) || not (eq no_ask no_raw))
      && (le one combined || lt (sub one combined) s.config.min_edge)

  module _ (parse : Key → Option Decimal) (group_of : ℕ → Key)
      (yes_reason no_reason : Decimal → Key) where
    abbrev pub leg :
        MathArbStrategy
        → MarketPair
        → (token_id : Key) → (price size : Decimal) → (reason : Key) → ℕ
        → OrderIntent
    leg s pair token_id price size reason now =
        with_tick_size
          (with_priority
            (with_group
              (new_intent pair.condition_id token_id buy price size (urgency_of s.config) reason
                s.name now)
              (group_of s.trade_count))
            100)
          pair.tick_size

    -- the two intents, with the trade recorded and its cost added to the exposure
    abbrev pub traded :
        MathArbStrategy
        → MarketPair
        → (yes_ask no_ask size edge : Decimal) → ℕ
        → MathArbStrategy × List OrderIntent
    traded s pair yes_ask no_ask size edge now = (
      add_exposure (record_trade s pair.condition_id now) (mul (add yes_ask no_ask) size),
      leg s pair pair.yes_token_id yes_ask size (yes_reason edge) now
          ∷ leg s pair pair.no_token_id no_ask size (no_reason edge) now
          ∷ [],
    )

    -- From the quick check on.
    unfoldable pub check_prices :
        MathArbStrategy
        → MarketPair
        → StrategyContext
        → (yes_book no_book : BookSnapshot) → (yes_raw no_raw : Decimal)
        → Option (MathArbStrategy × List OrderIntent)
    check_prices s pair ctx yes_book no_book yes_raw no_raw =
        let yes_ask = round_up_to_tick yes_raw pair.tick_size in
        let no_ask = round_up_to_tick no_raw pair.tick_size in
        let calc =
          calculate parse s.edge_config yes_book no_book pair.fee_rate_bps
            s.config.min_position_size in
        let combined = add yes_ask no_ask in
        let size = trade_size_of s ctx.ledger.cash.available calc.max_size combined in
        unless (is_eroded s yes_raw no_raw yes_ask no_ask) (
          unless (not calc.is_profitable) (
            unless (lt size (effective_min s (min yes_ask no_ask))) (
              unless (not (check_exposure_limit s (mul combined size)))
                (some (traded s pair yes_ask no_ask size calc.actual_edge ctx.now)))))

    abbrev pub check_quick :
        MathArbStrategy
        → MarketPair
        → StrategyContext
        → (yes_book no_book : BookSnapshot) → Option (Decimal × Decimal × Decimal)
        → Option (MathArbStrategy × List OrderIntent)
    check_quick s pair ctx yes_book no_book none = none
    check_quick s pair ctx yes_book no_book (some (yes_raw, no_raw, edge)) =
        check_prices s pair ctx yes_book no_book yes_raw no_raw

    abbrev pub check_books :
        MathArbStrategy
        → MarketPair
        → StrategyContext
        → (yes_book no_book : Option BookSnapshot) → Option (MathArbStrategy × List OrderIntent)
    check_books s pair ctx (some yes_book) (some no_book) =
        unless (not (book_is_two_sided yes_book) || not (book_is_two_sided no_book)) (
          check_quick s pair ctx yes_book no_book
            (quick_check parse s.edge_config ctx.books pair.yes_token_id pair.no_token_id))
    check_books s pair ctx _ _ = none

    unfoldable pub check_arb_opportunity :
        MathArbStrategy → MarketPair → StrategyContext → Option (MathArbStrategy × List OrderIntent)
    check_arb_opportunity s pair ctx =
        check_books s pair ctx (get_book ctx.books pair.yes_token_id)
          (get_book ctx.books pair.no_token_id)

    -- the checks of `on_book_update` once the pair is known
    abbrev pub check_pair :
        MathArbStrategy
        → Option MarketPair
        → (market_id : Key) → StrategyContext
        → Option (MathArbStrategy × List OrderIntent)
    check_pair s none market_id ctx = none
    check_pair s (some pair) market_id ctx =
        unless (not (pair.condition_id == market_id))
          (unless (is_on_cooldown s market_id ctx.now) (check_arb_opportunity s pair ctx))

    -- no intents, and the state unchanged, where a check fails
    unfoldable pub on_book_update :
        MarketPairRegistry
        → (market_id token_id : Key) → StrategyContext
        → MathArbStrategy
        → MathArbStrategy × List OrderIntent
    on_book_update registry market_id token_id ctx s =
        unwrap_or
          (unless (not s.enabled) (check_pair s (get_by_token registry token_id) market_id ctx))
          (s, [])

    -- a sale takes its value off the exposure
    abbrev pub filled : Side → Decimal → MathArbStrategy → MathArbStrategy
    filled sell notional s = record s {
      current_exposure = max (sub s.current_exposure notional) nought;
    }
    filled buy notional s = s

    unfoldable pub on_fill :
        Fill → StrategyContext → MathArbStrategy → MathArbStrategy × List OrderIntent
    on_fill fill ctx s = (filled fill.side (fill_notional fill) s, [])

    unfoldable pub on_tick : StrategyContext → MathArbStrategy → MathArbStrategy × List OrderIntent
    on_tick ctx s = (s, [])

    unfoldable pub on_shutdown :
        StrategyContext → MathArbStrategy → MathArbStrategy × List OrderIntent
    on_shutdown ctx s = (s, [])

    -- the implementation of the trait
    unfoldable pub math_arb : MarketPairRegistry → Strategy MathArbStrategy
    math_arb registry = record {
      name = λ s. s.name;
      subscribed_markets = λ s. all_condition_ids registry;
      on_book_update = on_book_update registry;
      on_fill = on_fill;
      on_tick = on_tick;
      on_shutdown = on_shutdown;
      priority = λ s. 100;
      is_enabled = λ s. s.enabled;
    }
