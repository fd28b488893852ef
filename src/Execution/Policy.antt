-- ===== src/Execution/Policy.antt =====
-- src/execution/policy.rs: how an intent becomes an order. Ticks are rounded by the decimal
-- operations. The names of the policies are left out, and `now` is the time in seconds.
pub mod Ticks
pub mod Setters
mod Examples
use poly_bot.Prelude.{
  ℕ, ◌+◌, Bool, true, false, ◌&&◌, Option, none, some, ltb, is_some, if◌then◌else◌,
}
use poly_bot.Decimal.{Decimal, nought, dec, eq, DecimalOps, add, sub, mul, div, ceil, floor}
use poly_bot.Types.{Key, Side, buy, sell, OrderType, fak, gtc, fok}

-- src/strategy/traits.rs
pub data Urgency : Type 0 where
  immediate normal passive : Urgency

pub data PartialFillAction : Type 0 where
  unwind_filled cancel_remainder keep_remainder : PartialFillAction

pub record OrderParams : Type 0 where
  pub token_id : Key
  pub side : Side
  pub price : Decimal
  pub size : Decimal
  pub order_type : OrderType
  pub expiration : ℕ
  pub on_partial_fill : PartialFillAction
  pub strategy_name : Key
  pub group_id : Option Key

pub record IntentRef : Type 0 where
  pub token_id : Key
  pub side : Side
  pub price : Decimal
  pub size : Decimal
  pub urgency : Urgency
  pub strategy_name : Key
  pub group_id : Option Key
  pub tick_size : Decimal

pub record TakerPolicy : Type 0 where
  pub expiration_secs : ℕ
  pub unwind_grouped_partials : Bool

pub record MakerPolicy : Type 0 where
  pub post_only : Bool
  pub price_offset_cents : Decimal
  pub expiration_secs : ℕ

pub record DualPolicy : Type 0 where
  pub taker : TakerPolicy
  pub maker : MakerPolicy

abbrev pub default_taker : TakerPolicy
default_taker = record { expiration_secs = 60; unwind_grouped_partials = true }

abbrev pub default_maker : MakerPolicy
default_maker = record { post_only = false; price_offset_cents = nought; expiration_secs = 0 }

abbrev pub default_dual : DualPolicy
default_dual = record { taker = default_taker; maker = default_maker }

abbrev pub taker_type : Urgency → OrderType
taker_type immediate = fok
taker_type normal = fak
taker_type passive = fak

abbrev pub expiration_of : (expiration_secs now : ℕ) → ℕ
expiration_of expiration_secs now = if ltb 0 expiration_secs then now + expiration_secs else 0

unfoldable pub taker_partial : TakerPolicy → IntentRef → PartialFillAction
taker_partial policy intent =
    if is_some intent.group_id && policy.unwind_grouped_partials
    then unwind_filled
    else cancel_remainder

abbrev pub is_passive : Urgency → Bool
is_passive passive = true
is_passive _ = false

unfoldable pub dual_partial : DualPolicy → IntentRef → PartialFillAction
dual_partial policy intent =
    if is_passive intent.urgency then keep_remainder else taker_partial policy.taker intent

module _ ⦃o : DecimalOps⦄ where
  unfoldable pub round_up_to_tick : (price tick_size : Decimal) → Decimal
  round_up_to_tick price tick_size =
      if eq tick_size nought then price else mul (ceil (div price tick_size)) tick_size

  unfoldable pub round_down_to_tick : (price tick_size : Decimal) → Decimal
  round_down_to_tick price tick_size =
      if eq tick_size nought then price else mul (floor (div price tick_size)) tick_size

  unfoldable pub taker_params : TakerPolicy → IntentRef → ℕ → OrderParams
  taker_params policy intent now = record {
    token_id = intent.token_id;
    side = intent.side;
    price = round_up_to_tick intent.price intent.tick_size;
    size = intent.size;
    order_type = taker_type intent.urgency;
    expiration = expiration_of policy.expiration_secs now;
    on_partial_fill = taker_partial policy intent;
    strategy_name = intent.strategy_name;
    group_id = intent.group_id;
  }

  abbrev pub offset_by : Side → (price offset : Decimal) → Decimal
  offset_by buy price offset = add price offset
  offset_by sell price offset = sub price offset

  abbrev pub rounded_by : Side → (price tick_size : Decimal) → Decimal
  rounded_by buy price tick_size = round_down_to_tick price tick_size
  rounded_by sell price tick_size = round_up_to_tick price tick_size

  unfoldable pub apply_price_offset : MakerPolicy → Decimal → Side → Decimal → Decimal
  apply_price_offset policy price side tick_size =
      rounded_by side (offset_by side price (div policy.price_offset_cents (dec 100 0))) tick_size

  unfoldable pub maker_params : MakerPolicy → IntentRef → ℕ → OrderParams
  maker_params policy intent now = record {
    token_id = intent.token_id;
    side = intent.side;
    price = apply_price_offset policy intent.price intent.side intent.tick_size;
    size = intent.size;
    order_type = gtc;
    expiration = expiration_of policy.expiration_secs now;
    on_partial_fill = keep_remainder;
    strategy_name = intent.strategy_name;
    group_id = intent.group_id;
  }

  unfoldable pub dual_params : DualPolicy → IntentRef → ℕ → OrderParams
  dual_params policy intent now =
      if is_passive intent.urgency
      then maker_params policy.maker intent now
      else taker_params policy.taker intent now
