-- ===== src/Strategy/Traits.antt =====
-- src/strategy/traits.rs: the intents that strategies return, what they read, and the trait itself.
-- A strategy changes its own state behind shared references, so each call of the trait takes the
-- state of the strategy and returns the new one.
use poly_bot.Prelude.{
  ℕ, Bool, true, Option, none, some, List, [], is_some, unwrap_or, if◌then◌else◌,
}
use poly_bot.Decimal.{Decimal, nought, one, le, DecimalOps, mul}
use poly_bot.Types.{Key, Side}
use poly_bot.Execution.Policy.{Urgency, IntentRef}
use poly_bot.State.OrderBook.{Books, best_ask}
use poly_bot.Ledger.{Ledger}
use poly_bot.Ledger.Positions.{Fill}
use poly_bot.Strategy.MarketPair.{MarketPair}

pub record OrderIntent : Type 0 where
  pub market_id : Key
  pub token_id : Key
  pub side : Side
  pub price : Decimal
  pub size : Decimal
  pub urgency : Urgency
  pub reason : Key
  pub strategy_name : Key
  pub group_id : Option Key
  pub priority : ℕ
  pub tick_size : Decimal
  pub market_desc : Key
  pub created_at : ℕ

-- the empty text
abbrev pub no_text : Key
no_text = 0

unfoldable pub new_intent :
    (market_id token_id : Key)
    → Side
    → (price size : Decimal) → Urgency
    → (reason strategy_name : Key) → (now : ℕ) → OrderIntent
new_intent market_id token_id side price size urgency reason strategy_name now = record {
  market_id = market_id;
  token_id = token_id;
  side = side;
  price = price;
  size = size;
  urgency = urgency;
  reason = reason;
  strategy_name = strategy_name;
  group_id = none;
  priority = 50;
  tick_size = nought;
  market_desc = no_text;
  created_at = now;
}

unfoldable pub with_group : OrderIntent → Key → OrderIntent
with_group x group_id = record x { group_id = some group_id }

unfoldable pub with_priority : OrderIntent → ℕ → OrderIntent
with_priority x priority = record x { priority = priority }

unfoldable pub with_tick_size : OrderIntent → Decimal → OrderIntent
with_tick_size x tick_size = record x { tick_size = tick_size }

unfoldable pub is_grouped : OrderIntent → Bool
is_grouped x = is_some x.group_id

-- `IntentRef::from_intent` of src/execution/policy.rs
unfoldable pub from_intent : OrderIntent → IntentRef
from_intent x = record {
  token_id = x.token_id;
  side = x.side;
  price = x.price;
  size = x.size;
  urgency = x.urgency;
  strategy_name = x.strategy_name;
  group_id = x.group_id;
  tick_size = x.tick_size;
}

module _ ⦃o : DecimalOps⦄ where
  unfoldable pub notional : OrderIntent → Decimal
  notional x = mul x.price x.size

pub record StrategyContext : Type 0 where
  pub books : Books
  pub ledger : Ledger
  pub now : ℕ
  pub utc_now : ℕ

module _ (parse : Key → Option Decimal) where
  -- the two tokens of a pair, the one with the lower ask first
  unfoldable pub tokens_by_ask_asc : StrategyContext → MarketPair → Key × Key
  tokens_by_ask_asc ctx pair =
      let yes_ask = unwrap_or (best_ask parse ctx.books pair.yes_token_id) one in
      let no_ask = unwrap_or (best_ask parse ctx.books pair.no_token_id) one in
      if le no_ask yes_ask
      then (pair.no_token_id, pair.yes_token_id)
      else (pair.yes_token_id, pair.no_token_id)

-- The trait `Strategy`, for strategies with states in `S`.
pub record Strategy (S : Type 0) : Type 0 where
  pub name : S → Key
  pub subscribed_markets : S → List Key
  pub on_book_update : (market_id token_id : Key) → StrategyContext → S → S × List OrderIntent
  pub on_fill : Fill → StrategyContext → S → S × List OrderIntent
  pub on_tick : StrategyContext → S → S × List OrderIntent
  pub on_shutdown : StrategyContext → S → S × List OrderIntent
  pub priority : S → ℕ
  pub is_enabled : S → Bool

-- The methods that the trait provides by default.
module _ {S : Type 0} where
  unfoldable pub default_subscribed_markets : S → List Key
  default_subscribed_markets s = []

  unfoldable pub default_on_fill : Fill → StrategyContext → S → S × List OrderIntent
  default_on_fill fill ctx s = (s, [])

  unfoldable pub default_on_tick : StrategyContext → S → S × List OrderIntent
  default_on_tick ctx s = (s, [])

  unfoldable pub default_on_shutdown : StrategyContext → S → S × List OrderIntent
  default_on_shutdown ctx s = (s, [])

  unfoldable pub default_priority : S → ℕ
  default_priority s = 50

  unfoldable pub default_is_enabled : S → Bool
  default_is_enabled s = true
