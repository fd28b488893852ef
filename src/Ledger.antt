-- ===== src/Ledger.antt =====
-- src/ledger/mod.rs: `Ledger`, the authoritative portfolio state, over its three trackers.
pub mod Cash
pub mod Lifecycle
pub mod Orders
pub mod Positions
pub mod Fills
pub mod Cancels
mod Examples
use poly_bot.Prelude.{
  u32, ℕ, ◌+◌, ◌/◌, Bool, true, false, ◌&&◌, Option, none, some, List, [], ◌∷◌, ◌++◌, map, length,
  filter, drop, contains, is_some, unwrap_or, map_option, if◌then◌else◌, ltb, ◌==◌,
}
use poly_bot.Decimal.{Decimal, nought, lt, DecimalOps, add, sub, mul, total_of}
use poly_bot.Types.{Key, Side, buy, sell, side_eq, OrderState, cancelled}
use Cash.{CashBalance, CashSnapshot}
use Orders.{OpenOrders, OrderStats, TrackedOrder}
use Positions.{Fill, Position}

pub record Ledger : Type 0 where
  pub orders : OpenOrders
  pub positions : Positions.Positions
  pub cash : CashBalance
  pub fills : List Fill
  pub seen_fill_ids : List Key

pub record LedgerSnapshot : Type 0 where
  pub cash : CashSnapshot
  pub positions : List Position
  pub order_stats : OrderStats
  pub realized_pnl : Decimal
  pub unrealized_pnl : Decimal
  pub total_fees : Decimal
  pub total_slippage_cost : Decimal
  pub fill_count : ℕ

unfoldable pub new : Decimal → Ledger
unfolding Orders.new Cash.new
new initial_cash = record {
  orders = Orders.new;
  positions = [];
  cash = Cash.new initial_cash;
  fills = [];
  seen_fill_ids = [];
}

unfoldable pub sync_cash : Ledger → Decimal → Ledger
unfolding Cash.reset
sync_cash l on_chain_balance = record l { cash = Cash.reset l.cash on_chain_balance }

abbrev pub max_fills : ℕ
max_fills = 10_000

unfoldable pub drop_oldest : List Fill → List Fill
drop_oldest = drop (max_fills / 2)

-- The fill history, capped by dropping its oldest half.
unfoldable pub store_fill : List Fill → Fill → List Fill
store_fill fills f =
    let fills' = fills ++ f ∷ [] in
    if ltb max_fills (length fills') then drop_oldest fills' else fills'

abbrev pub or_else : Option Decimal → Option Decimal → Option Decimal
or_else (some a) _ = some a
or_else none b = b

abbrev price_of : TrackedOrder → Decimal
price_of order = order.price

module _ ⦃o : DecimalOps⦄ where
  abbrev pub slippage : Side → (price size expected : Decimal) → Decimal
  slippage buy price size expected = mul (sub price expected) size
  slippage sell price size expected = mul (sub expected price) size

  -- The limit price of the tracked order stands in where the fill carries none.
  unfoldable pub resolve : Ledger → Fill → Fill
  unfolding Orders.get_by_order_id
  resolve l f =
      let expected =
        or_else f.expected_price
          (map_option price_of (Orders.get_by_order_id l.orders f.order_id)) in
      record f {
        expected_price = expected;
        slippage_cost = unwrap_or (map_option (slippage f.side f.price f.size) expected) nought;
      }

  abbrev pub settle : Side → CashBalance → Decimal → CashBalance
  settle buy c notional = (Cash.settle_buy c notional).0
  settle sell c notional = Cash.settle_sell c notional

  -- Cash after a fill: the notional is settled by side, then the fee is taken.
  unfoldable pub settle_fill : CashBalance → Fill → CashBalance
  unfolding Positions.fill_notional
  settle_fill c f = Cash.deduct_fee (settle f.side c (Positions.fill_notional f)) f.fee

  -- A fill whose id was seen before is ignored.
  unfoldable pub process_fill : Ledger → Fill → ℕ → Ledger
  process_fill l f now =
      if contains f.fill_id l.seen_fill_ids
      then l
      else (let f' = resolve l f in
          record l {
            positions = Positions.apply_fill l.positions f' now;
            cash = settle_fill l.cash f';
            fills = store_fill l.fills f';
            seen_fill_ids = f.fill_id ∷ l.seen_fill_ids;
          })

  unfoldable pub snapshot : Ledger → LedgerSnapshot
  snapshot l = record {
    cash = Cash.snapshot l.cash;
    positions = Positions.all_positions l.positions;
    order_stats = Orders.stats l.orders;
    realized_pnl = Positions.total_realized_pnl l.positions;
    unrealized_pnl = Positions.total_unrealized_pnl l.positions;
    total_fees = Positions.total_fees l.positions;
    total_slippage_cost = Positions.total_slippage_cost l.positions;
    fill_count = length l.fills;
  }

  -- What the active orders of one side would still trade.
  abbrev pub pending : Side → List TrackedOrder → Decimal
  pending side orders = total_of (
      map (λ (x : TrackedOrder). x.remaining_size)
        (filter (λ (x : TrackedOrder). Orders.is_active x.state && side_eq x.side side) orders))

  unfoldable pub net_exposure : Ledger → Key → ℕ → Decimal
  unfolding Orders.orders_for_token Positions.get_position
  net_exposure l token_id now =
      let orders = Orders.orders_for_token l.orders token_id in
      sub (add (Positions.get_position l.positions token_id now).shares (pending buy orders))
        (pending sell orders)

  unfoldable pub total_exposure : Ledger → Decimal
  total_exposure l =
      add (Positions.total_notional l.positions) (Orders.total_reserved_notional l.orders)

  -- The exchange no longer has an order that the ledger holds open.
  unfoldable pub apply_server_cancel : Ledger → Key → ℕ → Ledger × Bool
  apply_server_cancel l exchange_order_id now =
      elim (Orders.get_by_order_id l.orders exchange_order_id) [
        | none ↦ (l, false)
        | some order ↦
            if Orders.is_open order.state
            then (
              record l {
                cash =
                    if lt nought (Orders.remaining_notional order)
                    then (Cash.release l.cash (Orders.remaining_notional order)).0
                    else l.cash;
                orders = (Orders.transition l.orders order.local_id cancelled now).0;
              },
              true,
            )
            else (l, false)
      ]

unfoldable pub fills_for_order : Ledger → Key → List Fill
fills_for_order l order_id = filter (λ f. f.order_id == order_id) l.fills

unfoldable pub open_orders_count : Ledger → ℕ
unfolding Orders.stats
open_orders_count l = u32 (Orders.stats l.orders).active_count

unfoldable pub cash_snapshot : ⦃o : DecimalOps⦄ → Ledger → CashSnapshot
unfolding Cash.snapshot
cash_snapshot l = Cash.snapshot l.cash
