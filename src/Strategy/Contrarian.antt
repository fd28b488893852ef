-- ===== src/Strategy/Contrarian.antt =====
-- src/strategy/contrarian.rs: `ContrarianStrategy`, which buys a token whose price has dropped and
-- sells it later. Its state is its own; the registry of pairs is shared and so an argument. The
-- texts of the reasons are made by `entry_reason` and `exit_reason`. Times are in milliseconds.
pub mod Entries
pub mod Exits
pub mod Interface
pub mod Sales
pub mod Tracking
pub mod Runs
mod Examples
use poly_bot.Prelude.{
  unwrap_or, ℕ, ◌+◌, ◌-◌, ◌*◌, ◌/◌, Bool, true, false, not, ◌&&◌, Option, none, some, unless, List,
  [], ◌∷◌, filter, is_empty, is_some, u64, ltb, leb, if◌then◌else◌,
}
use poly_bot.Prelude.Dict.{Dict, lookup, insert, erase}
use poly_bot.Decimal.{
  Decimal, dec, nought, one, neg, eq, lt, le, min, max, DecimalOps, sub, mul, div, truncate,
}
use poly_bot.Types.{Key, buy, sell}
use poly_bot.Ledger.Positions.{Position, Fill, get_position, is_flat}
use poly_bot.State.OrderBook.{best_ask, best_bid, mid_price, bid_depth}
use poly_bot.State.OrderBook.Snapshot.{take}
use poly_bot.Execution.Policy.{normal}
use poly_bot.Strategy.MarketPair.{
  MarketPair, MarketPairRegistry, get_by_token, is_crypto_15min, complement,
}
use poly_bot.Strategy.Traits.{
  OrderIntent, StrategyContext, Strategy, new_intent, with_priority, with_tick_size,
  default_subscribed_markets,
}

-- `min_move_bps` is the decimal that the code makes of its integer.
pub record ContrarianConfig : Type 0 where
  pub min_move_bps : Decimal
  pub lookback_secs : ℕ
  pub min_bid_depth : Decimal
  pub min_edge : Decimal
  pub high_fee_min_edge : Decimal
  pub max_bet_usd : Decimal
  pub min_bet_usd : Decimal
  pub max_hold_secs : ℕ
  pub profit_target_pct : Decimal
  pub stop_loss_pct : Decimal
  pub cooldown_ms : ℕ
  pub max_history_len : ℕ

abbrev pub default_config : ContrarianConfig
default_config = record {
  min_move_bps = dec 500 0;
  lookback_secs = 60;
  min_bid_depth = dec 10 0;
  min_edge = dec 5 2;
  high_fee_min_edge = dec 12 2;
  max_bet_usd = dec 100 0;
  min_bet_usd = dec 5 0;
  max_hold_secs = 120;
  profit_target_pct = dec 8 2;
  stop_loss_pct = dec 5 2;
  cooldown_ms = 10_000;
  max_history_len = 500;
}

-- The price history of a token has its newest entry first.
pub record ContrarianStrategy : Type 0 where
  pub name : Key
  pub config : ContrarianConfig
  pub enabled : Bool
  pub price_history : Dict (List (ℕ × Decimal))
  pub entry_tracking : Dict (Decimal × ℕ)
  pub pending_exit : Dict ℕ
  pub last_trade : Dict ℕ
  pub trade_count : ℕ

-- the text `contrarian`
abbrev pub contrarian_name : Key
contrarian_name = 22

unfoldable pub with_config : ContrarianConfig → ContrarianStrategy
with_config config = record {
  name = contrarian_name;
  config = config;
  enabled = true;
  price_history = [];
  entry_tracking = [];
  pending_exit = [];
  last_trade = [];
  trade_count = 0;
}

unfoldable pub set_enabled : ContrarianStrategy → Bool → ContrarianStrategy
set_enabled s enabled = record s { enabled = enabled }

unfoldable pub is_on_cooldown : ContrarianStrategy → Key → ℕ → Bool
is_on_cooldown s cid now = elim (lookup cid s.last_trade) [
  | none ↦ false
  | some t ↦ ltb (now - t) s.config.cooldown_ms
]

unfoldable pub effective_min_edge : ContrarianStrategy → MarketPair → Decimal
effective_min_edge s pair =
    if is_crypto_15min pair then s.config.high_fee_min_edge else s.config.min_edge

abbrev pub is_old : (cutoff now : ℕ) → ℕ × Decimal → Bool
is_old cutoff now e = ltb cutoff (now - e.0)

-- `pop_back` while the last entry is too old
unfoldable pub trimmed : (cutoff now : ℕ) → List (ℕ × Decimal) → List (ℕ × Decimal)
trimmed cutoff now [] = []
trimmed cutoff now (e ∷ es) =
    let rest = trimmed cutoff now es in
    if is_empty rest && is_old cutoff now e then [] else e ∷ rest

abbrev pub history_of : Option (List (ℕ × Decimal)) → List (ℕ × Decimal)
history_of none = []
history_of (some es) = es

unfoldable pub update_price_history : ContrarianStrategy → Key → Decimal → ℕ → ContrarianStrategy
update_price_history s token_id mid now = record s {
  price_history =
      insert token_id
        (take s.config.max_history_len (
          trimmed (s.config.lookback_secs * 1000) now
            ((now, mid) ∷ history_of (lookup token_id s.price_history))))
        s.price_history;
}

-- the oldest entry after the first
abbrev pub oldest : ℕ × Decimal → List (ℕ × Decimal) → ℕ × Decimal
oldest e [] = e
oldest e (f ∷ fs) = oldest f fs

pub data ExitReason : Type 0 where
  time profit stop_loss : ExitReason

unfoldable pub on_fill :
    Fill → StrategyContext → ContrarianStrategy → ContrarianStrategy × List OrderIntent
on_fill f ctx s = elim f.side [
  | buy ↦
      if is_some (lookup f.token_id s.entry_tracking)
      then (s, [])
      else (record s { entry_tracking = insert f.token_id (f.price, ctx.now) s.entry_tracking }, [])
  | sell ↦ (
    record s {
      entry_tracking = erase f.token_id s.entry_tracking;
      pending_exit = erase f.token_id s.pending_exit;
    },
    [],
  )
]

abbrev pub position_of : StrategyContext → Key → Position
position_of ctx token_id = get_position ctx.ledger.positions token_id ctx.now

-- `retain` keeps the pending exits that are younger than a minute, and the entries of open positions.
unfoldable pub cleaned : StrategyContext → ContrarianStrategy → ContrarianStrategy
cleaned ctx s = record s {
  pending_exit = filter (λ (e : Key × ℕ). ltb ((ctx.now - e.1) / 1000) 60) s.pending_exit;
  entry_tracking =
      filter (λ (e : Key × (Decimal × ℕ)). not (is_flat (position_of ctx e.0))) s.entry_tracking;
}
