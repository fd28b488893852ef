-- ===== src/Strategy/MarketPair/Build.antt =====
-- src/strategy/market_pair.rs: the constructors of a pair, and the classification of its outcomes by
-- their labels. `lower` puts a text in lower case.
use poly_bot.Prelude.{ℕ, Bool, true, false, ◌&&◌, ◌||◌, none, some, ◌==◌, if◌then◌else◌}
use poly_bot.Decimal.{Decimal, dec, one}
use poly_bot.Types.{Key}
use poly_bot.Strategy.MarketPair.{MarketPair, BinaryOutcomeType, yes_no, up_down, other}

-- The texts that the code compares labels with or fills in.
abbrev pub empty_text : Key
empty_text = 0

abbrev pub yes_lower_text : Key
yes_lower_text = 31

abbrev pub no_lower_text : Key
no_lower_text = 32

abbrev pub up_lower_text : Key
up_lower_text = 33

abbrev pub down_lower_text : Key
down_lower_text = 34

abbrev pub yes_label_text : Key
yes_label_text = 35

abbrev pub no_label_text : Key
no_label_text = 36

abbrev pub up_label_text : Key
up_label_text = 37

abbrev pub down_label_text : Key
down_label_text = 38

abbrev pub pair_of :
    (condition_id first_token_id second_token_id : Key)
    → (fee_rate_bps : ℕ) → BinaryOutcomeType
    → (first second : Key) → MarketPair
pair_of condition_id first_token_id second_token_id fee_rate_bps outcome_type first second =
    record {
      condition_id = condition_id;
      yes_token_id = first_token_id;
      no_token_id = second_token_id;
      fee_rate_bps = fee_rate_bps;
      is_neg_risk = false;
      description = empty_text;
      min_order_size = one;
      tick_size = dec 1 2;
      outcome_type = outcome_type;
      first_outcome_label = first;
      second_outcome_label = second;
      asset_symbol = none;
    }

unfoldable pub new : (condition_id yes_token_id no_token_id : Key) → MarketPair
new condition_id yes_token_id no_token_id =
    pair_of condition_id yes_token_id no_token_id 0 yes_no yes_label_text no_label_text

unfoldable pub new_up_down : (condition_id up_token_id down_token_id : Key) → MarketPair
new_up_down condition_id up_token_id down_token_id =
    pair_of condition_id up_token_id down_token_id 1_000 up_down up_label_text down_label_text

-- either order of two labels
abbrev pub are_labels : (a b first second : Key) → Bool
are_labels a b first second = first == a && second == b || first == b && second == a

abbrev pub is_up_down_type : BinaryOutcomeType → Bool
is_up_down_type up_down = true
is_up_down_type _ = false

unfoldable pub is_up_down : MarketPair → Bool
is_up_down pair = is_up_down_type pair.outcome_type

abbrev pub is_yes_no_type : BinaryOutcomeType → Bool
is_yes_no_type yes_no = true
is_yes_no_type _ = false

unfoldable pub is_yes_no : MarketPair → Bool
is_yes_no pair = is_yes_no_type pair.outcome_type

module _ (lower : Key → Key) where
  unfoldable pub classify_outcome_type : (first second : Key) → BinaryOutcomeType
  classify_outcome_type first second =
      if are_labels yes_lower_text no_lower_text (lower first) (lower second)
      then yes_no
      else if are_labels up_lower_text down_lower_text (lower first) (lower second)
      then up_down
      else other

  unfoldable pub with_outcomes :
      (condition_id first_token_id second_token_id first_label second_label : Key) → MarketPair
  with_outcomes condition_id first_token_id second_token_id first_label second_label =
      let outcome_type = classify_outcome_type first_label second_label in
      pair_of condition_id first_token_id second_token_id
        (if is_up_down_type outcome_type then 1_000 else 0) outcome_type first_label second_label

unfoldable pub with_fee_rate : MarketPair → ℕ → MarketPair
with_fee_rate pair fee_rate_bps = record pair { fee_rate_bps = fee_rate_bps }

unfoldable pub with_neg_risk : MarketPair → Bool → MarketPair
with_neg_risk pair is_neg_risk = record pair { is_neg_risk = is_neg_risk }

unfoldable pub with_description : MarketPair → Key → MarketPair
with_description pair description = record pair { description = description }

unfoldable pub with_asset_symbol : MarketPair → Key → MarketPair
with_asset_symbol pair symbol = record pair { asset_symbol = some symbol }

unfoldable pub with_min_order_size : MarketPair → Decimal → MarketPair
with_min_order_size pair min_order_size = record pair { min_order_size = min_order_size }
