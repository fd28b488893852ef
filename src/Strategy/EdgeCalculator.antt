-- ===== src/Strategy/EdgeCalculator.antt =====
-- src/strategy/edge_calculator.rs: the edge that an arbitrage needs, from fees, slippage, partial
-- fills and spreads. `parse` is the crate's reading of a decimal.
pub mod Profit
mod Examples
use poly_bot.Prelude.{
  ℕ, Bool, true, false, ◌&&◌, ◌||◌, Option, none, some, unwrap_or, if◌then◌else◌,
}
use poly_bot.Decimal.{
  Decimal, dec, nought, one, eq, lt, le, min, max, DecimalOps, add, sub, mul, div,
}
use poly_bot.Types.{Key}
use poly_bot.State.OrderBook.{BookSnapshot, Books, best_ask, first_size}
use poly_bot.State.OrderBook.Snapshot.{book_best_ask, book_spread}

pub record EdgeComponents : Type 0 where
  pub fees : Decimal
  pub slippage : Decimal
  pub partial_fill_risk : Decimal
  pub spread_penalty : Decimal

pub record EdgeCalculation : Type 0 where
  pub required_edge : Decimal
  pub actual_edge : Decimal
  pub is_profitable : Bool
  pub max_size : Decimal
  pub components : EdgeComponents

pub record EdgeConfig : Type 0 where
  pub min_edge : Decimal
  pub thin_book_margin : Decimal
  pub min_depth_threshold : Decimal
  pub slippage_factor : Decimal
  pub is_maker : Bool

abbrev pub default_edge_config : EdgeConfig
default_edge_config = record {
  min_edge = dec 3 2;
  thin_book_margin = dec 1 2;
  min_depth_threshold = dec 100 0;
  slippage_factor = dec 5 1;
  is_maker = false;
}

unfoldable pub taker : EdgeConfig
taker = default_edge_config

unfoldable pub maker : EdgeConfig
maker = record default_edge_config { min_edge = dec 1 2; is_maker = true }

unfoldable pub with_min_edge : EdgeConfig → Decimal → EdgeConfig
with_min_edge config min_edge = record config { min_edge = min_edge }

module _ ⦃o : DecimalOps⦄ (parse : Key → Option Decimal) (config : EdgeConfig) where
  -- the smaller size of the two best asks
  abbrev pub min_depth : (yes_book no_book : BookSnapshot) → Decimal
  min_depth yes_book no_book =
      min (unwrap_or (first_size parse yes_book.asks) nought)
        (unwrap_or (first_size parse no_book.asks) nought)

  -- the mean of the two spreads, with `d` for one that is missing
  abbrev pub avg_spread : (yes_book no_book : BookSnapshot) → (d : Decimal) → Decimal
  avg_spread yes_book no_book d =
      div (add (unwrap_or (book_spread parse yes_book) d) (unwrap_or (book_spread parse no_book) d))
        (dec 2 0)

  unfoldable pub calculate_fees : (fee_rate_bps : ℕ) → (combined_cost : Decimal) → Decimal
  calculate_fees fee_rate_bps combined_cost =
      if config.is_maker
      then nought
      else mul (div (dec fee_rate_bps 0) (dec 10_000 0)) combined_cost

  unfoldable pub estimate_slippage :
      (yes_book no_book : BookSnapshot) → (intended_size : Decimal) → Decimal
  estimate_slippage yes_book no_book intended_size =
      let depth = min_depth yes_book no_book in
      if eq depth nought
      then dec 10 2
      else if lt depth intended_size
      then min
          (mul (mul (div (sub intended_size depth) depth) (avg_spread yes_book no_book (dec 5 2)))
            config.slippage_factor)
          (dec 10 2)
      else nought

  unfoldable pub partial_fill_margin : (yes_book no_book : BookSnapshot) → Decimal
  partial_fill_margin yes_book no_book =
      let depth = min_depth yes_book no_book in
      if lt depth config.min_depth_threshold
      then config.thin_book_margin
      else if lt depth (mul config.min_depth_threshold (dec 2 0))
      then div config.thin_book_margin (dec 2 0)
      else nought

  unfoldable pub spread_penalty : (yes_book no_book : BookSnapshot) → Decimal
  spread_penalty yes_book no_book =
      let spread = avg_spread yes_book no_book (dec 10 2) in
      if lt (dec 5 2) spread then mul (sub spread (dec 5 2)) (dec 5 1) else nought

  abbrev pub components_of :
      (yes_book no_book : BookSnapshot)
      → (fee_rate_bps : ℕ) → (combined_cost intended_size : Decimal) → EdgeComponents
  components_of yes_book no_book fee_rate_bps combined_cost intended_size = record {
    fees = calculate_fees fee_rate_bps combined_cost;
    slippage = estimate_slippage yes_book no_book intended_size;
    partial_fill_risk = partial_fill_margin yes_book no_book;
    spread_penalty = spread_penalty yes_book no_book;
  }

  abbrev pub sum_of : EdgeComponents → Decimal
  sum_of c = add (add (add c.fees c.slippage) c.partial_fill_risk) c.spread_penalty

  abbrev pub required_by : EdgeComponents → Decimal
  required_by c = max (sum_of c) config.min_edge

  unfoldable pub calculate :
      (yes_book no_book : BookSnapshot)
      → (fee_rate_bps : ℕ) → (intended_size : Decimal) → EdgeCalculation
  calculate yes_book no_book fee_rate_bps intended_size =
      let yes_ask = unwrap_or (book_best_ask parse yes_book) one in
      let no_ask = unwrap_or (book_best_ask parse no_book) one in
      let combined_cost = add yes_ask no_ask in
      let actual_edge = sub one combined_cost in
      let components = components_of yes_book no_book fee_rate_bps combined_cost intended_size in
      let required_edge = required_by components in
      let max_size = min_depth yes_book no_book in
      record {
        required_edge = required_edge;
        actual_edge = actual_edge;
        is_profitable = le required_edge actual_edge && le intended_size max_size;
        max_size = max_size;
        components = components;
      }

  abbrev pub quick_edge : (yes_ask no_ask : Option Decimal) → Option (Decimal × Decimal × Decimal)
  quick_edge (some yes_ask) (some no_ask) =
      let combined = add yes_ask no_ask in
      let edge = sub one combined in
      if le one combined
      then none
      else if lt edge config.min_edge
      then none
      else some (yes_ask, no_ask, edge)
  quick_edge _ _ = none

  unfoldable pub quick_check :
      Books → (yes_token no_token : Key) → Option (Decimal × Decimal × Decimal)
  quick_check books yes_token no_token =
      quick_edge (best_ask parse books yes_token) (best_ask parse books no_token)
