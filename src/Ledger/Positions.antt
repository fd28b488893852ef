-- ===== src/Ledger/Positions.antt =====
-- src/ledger/positions.rs: positions by token, which confirmed fills update. A time that the code
-- reads from the clock is an argument.
pub mod Accounting
pub mod Marking
pub mod Rates
mod Examples
use poly_bot.Prelude.{
  ℕ, ◌+◌, Bool, true, false, not, ◌&&◌, ◌||◌, Option, none, some, List, [], ◌∷◌, map, length,
  filter, u32, if◌then◌else◌, is_some, unwrap_or,
}
use poly_bot.Prelude.Dict.{Dict, lookup, insert, adjust, values}
use poly_bot.Decimal.{
  Decimal, nought, dec, lt, eq, abs, neg, min, signum, DecimalOps, add, sub, mul, div, total_of,
}
use poly_bot.Types.{Key, Side, buy, sell}

pub record Position : Type 0 where
  pub token_id : Key
  pub shares : Decimal
  pub avg_cost : Decimal
  pub cost_basis : Decimal
  pub realized_pnl : Decimal
  pub unrealized_pnl : Decimal
  pub total_fees : Decimal
  pub total_slippage_cost : Decimal
  pub fill_count : ℕ
  pub opened_at : ℕ
  pub last_update : ℕ

unfoldable pub new_position : Key → ℕ → Position
new_position token_id now = record {
  token_id = token_id;
  shares = nought;
  avg_cost = nought;
  cost_basis = nought;
  realized_pnl = nought;
  unrealized_pnl = nought;
  total_fees = nought;
  total_slippage_cost = nought;
  fill_count = 0;
  opened_at = now;
  last_update = now;
}

unfoldable pub is_flat : Position → Bool
is_flat p = eq p.shares nought

unfoldable pub is_long : Position → Bool
is_long p = lt nought p.shares

unfoldable pub is_short : Position → Bool
is_short p = lt p.shares nought

unfoldable pub abs_shares : Position → Decimal
abs_shares p = abs p.shares

pub record Fill : Type 0 where
  pub fill_id : Key
  pub order_id : Key
  pub token_id : Key
  pub side : Side
  pub price : Decimal
  pub size : Decimal
  pub fee : Decimal
  pub expected_price : Option Decimal
  pub slippage_cost : Decimal
  pub timestamp : ℕ

-- A buy adds shares and a sell takes them.
abbrev pub signed_by : Side → Decimal → Decimal
signed_by buy size = size
signed_by sell size = neg size

unfoldable pub signed_size : Fill → Decimal
signed_size f = signed_by f.side f.size

abbrev pub Positions : Type 0
Positions = Dict Position

unfoldable pub get_position : Positions → Key → ℕ → Position
unfolding new_position
get_position ps token_id now = unwrap_or (lookup token_id ps) (new_position token_id now)

unfoldable pub has_position : Positions → Key → Bool
unfolding is_flat
has_position ps token_id = elim (lookup token_id ps) [ none ↦ false | some p ↦ not (is_flat p) ]

abbrev pub same_direction : Bool → Bool → Bool
same_direction true b = b
same_direction false b = not b

module _ ⦃o : DecimalOps⦄ where
  unfoldable pub mark_to_market : Decimal → ℕ → Position → Position
  unfolding is_flat
  mark_to_market market_price now p = record p {
    unrealized_pnl = if is_flat p then nought else mul (sub market_price p.avg_cost) p.shares;
    last_update = now;
  }

  unfoldable pub total_pnl : Position → Decimal
  total_pnl p = add p.realized_pnl p.unrealized_pnl

  unfoldable pub notional : Position → Decimal
  notional p = mul (abs p.shares) p.avg_cost

  unfoldable pub fill_notional : Fill → Decimal
  fill_notional f = mul f.price f.size

  -- fees, slippage and the count, which every fill adds to
  abbrev pub counted : Fill → Position → Position
  counted f p = record p {
    total_fees = add p.total_fees f.fee;
    total_slippage_cost = add p.total_slippage_cost f.slippage_cost;
    fill_count = u32 (p.fill_count + 1);
  }

  abbrev pub opened : Fill → Decimal → Position → Position
  opened f new_shares p = record p {
    shares = new_shares;
    avg_cost = f.price;
    cost_basis = mul f.price (abs new_shares);
    opened_at = f.timestamp;
  }

  abbrev pub extended : Fill → (fill_shares new_shares : Decimal) → Position → Position
  extended f fill_shares new_shares p =
      let total_cost = add (mul p.avg_cost (abs p.shares)) (mul f.price (abs fill_shares)) in
      record p {
        shares = new_shares;
        avg_cost = if lt nought (abs new_shares) then div total_cost (abs new_shares) else nought;
        cost_basis = total_cost;
      }

  abbrev pub flips : (old_shares new_shares : Decimal) → Bool
  flips old_shares new_shares =
      lt nought old_shares && lt new_shares nought || lt old_shares nought && lt nought new_shares

  abbrev pub reduced : Fill → (fill_shares new_shares : Decimal) → Position → Position
  reduced f fill_shares new_shares p =
      let closing_shares = min (abs fill_shares) (abs p.shares) in
      let realized = mul (mul (sub f.price p.avg_cost) closing_shares) (signum p.shares) in
      let p' = record p { realized_pnl = add p.realized_pnl realized } in
      if eq new_shares nought
      then record p' { shares = nought; avg_cost = nought; cost_basis = nought }
      else if flips p.shares new_shares
      then record p' {
        shares = new_shares;
        avg_cost = f.price;
        cost_basis = mul f.price (sub (abs fill_shares) (abs p.shares));
        opened_at = f.timestamp;
      }
      else record p' { shares = new_shares; cost_basis = mul p.avg_cost (abs new_shares) }

  -- One confirmed fill: it opens, extends, reduces, closes or flips the position.
  unfoldable pub update_position : Fill → Position → Position
  unfolding signed_size
  update_position f p =
      let fill_shares = signed_size f in
      let new_shares = add p.shares fill_shares in
      let p' = counted f p in
      let p'' =
        if eq p.shares nought
        then opened f new_shares p'
        else if same_direction (lt nought p.shares) (lt nought fill_shares)
        then extended f fill_shares new_shares p'
        else reduced f fill_shares new_shares p' in
      record p'' { last_update = f.timestamp }

  unfoldable pub apply_fill : Positions → Fill → ℕ → Positions
  unfolding update_position get_position
  apply_fill ps f now = insert f.token_id (update_position f (get_position ps f.token_id now)) ps

  unfoldable pub total_realized_pnl : Positions → Decimal
  total_realized_pnl ps = total_of (map (λ (p : Position). p.realized_pnl) (values ps))

  unfoldable pub total_unrealized_pnl : Positions → Decimal
  total_unrealized_pnl ps = total_of (map (λ (p : Position). p.unrealized_pnl) (values ps))

  unfoldable pub total_fees : Positions → Decimal
  total_fees ps = total_of (map (λ (p : Position). p.total_fees) (values ps))

  unfoldable pub total_slippage_cost : Positions → Decimal
  total_slippage_cost ps = total_of (map (λ (p : Position). p.total_slippage_cost) (values ps))

  unfoldable pub total_notional : Positions → Decimal
  unfolding notional
  total_notional ps = total_of (map notional (values ps))

  unfoldable pub mark_all_to_market : Positions → List (Key × Decimal) → ℕ → Positions
  mark_all_to_market ps [] now = ps
  mark_all_to_market ps ((token_id, price) ∷ prices) now =
      mark_all_to_market (adjust token_id (mark_to_market price now) ps) prices now

unfoldable pub all_positions : Positions → List Position
all_positions ps = filter (λ p. not (is_flat p)) (values ps)

unfoldable pub count : Positions → ℕ
unfolding all_positions
count ps = length (all_positions ps)

abbrev pub closed_out : Position → Position
closed_out p = record p {
  shares = nought;
  avg_cost = nought;
  cost_basis = nought;
  unrealized_pnl = nought;
}

-- The sync task found no shares on the chain.
unfoldable pub force_close : Positions → Key → Positions
force_close ps token_id = adjust token_id closed_out ps

unfoldable pub clear : Positions → Positions
clear ps = []
