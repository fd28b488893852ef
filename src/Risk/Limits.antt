-- ===== src/Risk/Limits.antt =====
-- src/risk/limits.rs: `RiskLimits`, the checks of an order before it is sent and of the ledger as a
-- whole. `check_order` answers with the violation it found, and `none` stands for `Ok`.
pub mod Orders
pub mod Halts
pub mod Hedging
mod Examples
use poly_bot.Prelude.{
  ℕ, Bool, true, false, not, Option, none, some, List, [], ◌∷◌, ◌++◌, map, contains, leb, ◌==◌,
  if◌then◌else◌,
}
use poly_bot.Decimal.{Decimal, nought, dec, lt, neg, abs, max, DecimalOps, add, sub, mul}
use poly_bot.Types.{Key, Side, buy, sell, side_eq}
use poly_bot.Ledger.{Ledger, open_orders_count, cash_snapshot, snapshot}
use poly_bot.Ledger.Positions.{Position, get_position, is_long, total_unrealized_pnl}
use poly_bot.Strategy.MarketPair.{MarketPair, MarketPairRegistry, get_by_token, complement}

pub data LimitViolation : Type 0 where
  daily_loss_exceeded : (current_loss limit : Decimal) → LimitViolation
  max_open_orders_exceeded : (current limit : ℕ) → LimitViolation
  max_position_exceeded : (token_id : Key) (current_exposure limit : Decimal) → LimitViolation
  max_unhedged_exposure_exceeded : (current limit : Decimal) → LimitViolation
  order_size_too_large : (size limit : Decimal) → LimitViolation
  order_size_too_small : (size minimum : Decimal) → LimitViolation
  insufficient_cash : (needed available : Decimal) → LimitViolation

pub record RiskLimitsConfig : Type 0 where
  pub max_daily_loss : Decimal
  pub max_open_orders : ℕ
  pub max_position_exposure : Decimal
  pub max_unhedged_exposure : Decimal
  pub max_order_size : Decimal
  pub min_order_size : Decimal

-- The limits of src/constants.rs.
abbrev pub default_config : RiskLimitsConfig
default_config = record {
  max_daily_loss = dec 500 0;
  max_open_orders = 10;
  max_position_exposure = dec 5000 0;
  max_unhedged_exposure = dec 100 0;
  max_order_size = dec 5000 0;
  min_order_size = dec 10 0;
}

pub record RiskLimits : Type 0 where
  pub config : RiskLimitsConfig
  pub daily_realized_pnl : Decimal
  pub daily_start_balance : Decimal
  pub trading_halted : Bool
  pub halt_reason : Option LimitViolation

pub record RiskLimitsStats : Type 0 where
  pub daily_pnl : Decimal
  pub max_daily_loss : Decimal
  pub trading_halted : Bool
  pub halt_reason : Option LimitViolation

unfoldable pub with_config : RiskLimitsConfig → RiskLimits
with_config config = record {
  config = config;
  daily_realized_pnl = nought;
  daily_start_balance = nought;
  trading_halted = false;
  halt_reason = none;
}

unfoldable pub new : RiskLimits
unfolding with_config
new = with_config default_config

unfoldable pub set_daily_start_balance : RiskLimits → Decimal → RiskLimits
set_daily_start_balance r balance = record r {
  daily_start_balance = balance;
  daily_realized_pnl = nought;
}

unfoldable pub halt_trading : LimitViolation → RiskLimits → RiskLimits
halt_trading reason r = record r { trading_halted = true; halt_reason = some reason }

unfoldable pub reset_daily : RiskLimits → Decimal → RiskLimits
unfolding set_daily_start_balance
reset_daily r starting_balance = record (set_daily_start_balance r starting_balance) {
  trading_halted = false;
  halt_reason = none;
}

unfoldable pub is_trading_allowed : RiskLimits → Bool
is_trading_allowed r = not r.trading_halted

unfoldable pub stats : RiskLimits → RiskLimitsStats
stats r = record {
  daily_pnl = r.daily_realized_pnl;
  max_daily_loss = r.config.max_daily_loss;
  trading_halted = r.trading_halted;
  halt_reason = r.halt_reason;
}

module _ ⦃o : DecimalOps⦄ where
  unfoldable pub record_realized_pnl : RiskLimits → (pnl current_unrealized : Decimal) → RiskLimits
  unfolding halt_trading
  record_realized_pnl r pnl current_unrealized =
      let daily_realized = add r.daily_realized_pnl pnl in
      let total = add daily_realized current_unrealized in
      let r' = record r { daily_realized_pnl = daily_realized } in
      if lt total (neg r.config.max_daily_loss)
      then halt_trading (daily_loss_exceeded (neg total) r.config.max_daily_loss) r'
      else r'

  -- The exposure that a position would have with the order filled.
  unfoldable pub new_exposure : Side → (order_value : Decimal) → Position → Decimal
  new_exposure buy order_value p = add (mul (abs p.shares) p.avg_cost) order_value
  new_exposure sell order_value p =
      if is_long p
      then max (sub (mul (abs p.shares) p.avg_cost) order_value) nought
      else add (mul (abs p.shares) p.avg_cost) order_value

  -- the funds for a buy
  abbrev pub lacks_cash : Side → (order_value available : Decimal) → Bool
  lacks_cash buy order_value available = lt available order_value
  lacks_cash sell order_value available = false

  unfoldable pub check_order :
      RiskLimits → Key → Side → (price size : Decimal) → Ledger → ℕ → Option LimitViolation
  check_order r token_id side price size l now =
      let order_value = mul price size in
      let exposure = new_exposure side order_value (get_position l.positions token_id now) in
      let available = (cash_snapshot l).available in
      if lt r.config.max_order_size order_value
      then some (order_size_too_large order_value r.config.max_order_size)
      else if lt order_value r.config.min_order_size
      then some (order_size_too_small order_value r.config.min_order_size)
      else if leb r.config.max_open_orders (open_orders_count l)
      then some (max_open_orders_exceeded (open_orders_count l) r.config.max_open_orders)
      else if lacks_cash side order_value available
      then some (insufficient_cash order_value available)
      else if lt r.config.max_position_exposure exposure
      then some (max_position_exceeded token_id exposure r.config.max_position_exposure)
      else none

  abbrev pub cost_of : Position → Decimal
  cost_of p = mul (abs p.shares) p.avg_cost

  -- `fold` over the positions, from zero
  abbrev pub sum_costs : Decimal → List Position → Decimal
  sum_costs acc [] = acc
  sum_costs acc (p ∷ ps) = sum_costs (add acc (cost_of p)) ps

  -- `iter().find`, and the cost of what it finds
  unfoldable pub cost_held : List Position → Key → Decimal
  cost_held [] cid = nought
  cost_held (p ∷ ps) cid = if p.token_id == cid then cost_of p else cost_held ps cid

  abbrev pub complement_cost : List Position → Option Key → Decimal
  complement_cost ps none = nought
  complement_cost ps (some cid) = cost_held ps cid

  -- One position of the loop, with the total and the conditions seen.
  unfoldable pub unhedged_step :
      MarketPairRegistry → List Position → Position → Decimal × List Key → Decimal × List Key
  unhedged_step registry ps p (total, seen) = elim (get_by_token registry p.token_id) [
    | none ↦ (add total (cost_of p), seen)
    | some pair ↦ if contains pair.condition_id seen then (total, seen) else (
      add total (abs (sub (cost_of p) (complement_cost ps (complement pair p.token_id)))),
      pair.condition_id ∷ seen,
    )
  ]

  unfoldable pub unhedged_loop :
      MarketPairRegistry → (all rest : List Position) → Decimal × List Key → Decimal × List Key
  unhedged_loop registry ps [] acc = acc
  unhedged_loop registry ps (p ∷ rest) acc =
      unhedged_loop registry ps rest (unhedged_step registry ps p acc)

  unfoldable pub calculate_unhedged_exposure : Ledger → Option MarketPairRegistry → Decimal
  calculate_unhedged_exposure l none = sum_costs nought (snapshot l).positions
  calculate_unhedged_exposure l (some registry) =
      (unhedged_loop registry (snapshot l).positions (snapshot l).positions (nought, [])).0

  abbrev pub found_if : Bool → LimitViolation → List LimitViolation
  found_if true v = v ∷ []
  found_if false v = []

  unfoldable pub check_all : RiskLimits → Ledger → Option MarketPairRegistry → List LimitViolation
  check_all r l registry =
      let daily_pnl = add r.daily_realized_pnl (total_unrealized_pnl l.positions) in
      let open_orders = open_orders_count l in
      let unhedged = calculate_unhedged_exposure l registry in
      found_if (lt daily_pnl (neg r.config.max_daily_loss))
        (daily_loss_exceeded (neg daily_pnl) r.config.max_daily_loss)
      ++ found_if (leb r.config.max_open_orders open_orders)
          (max_open_orders_exceeded open_orders r.config.max_open_orders)
      ++ found_if (lt r.config.max_unhedged_exposure unhedged)
          (max_unhedged_exposure_exceeded unhedged r.config.max_unhedged_exposure)
