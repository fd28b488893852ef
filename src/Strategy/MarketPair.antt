-- ===== src/Strategy/MarketPair.antt =====
-- src/strategy/market_pair.rs: the pairs of complement tokens and their registry. Texts are keys,
-- as ids are.
pub mod Indices
pub mod Complements
pub mod Build
mod Examples
use poly_bot.Prelude.{
  ℕ, Bool, Option, none, some, List, [], ◌∷◌, ◌||◌, map, filter, length, leb, ◌==◌, if◌then◌else◌,
}
use poly_bot.Prelude.Dict.{Dict, lookup, insert, erase, values}
use poly_bot.Decimal.{Decimal}
use poly_bot.Types.{Key}

pub data BinaryOutcomeType : Type 0 where
  yes_no up_down other : BinaryOutcomeType

pub record MarketPair : Type 0 where
  pub condition_id : Key
  pub yes_token_id : Key
  pub no_token_id : Key
  pub fee_rate_bps : ℕ
  pub is_neg_risk : Bool
  pub description : Key
  pub min_order_size : Decimal
  pub tick_size : Decimal
  pub outcome_type : BinaryOutcomeType
  pub first_outcome_label : Key
  pub second_outcome_label : Key
  pub asset_symbol : Option Key

unfoldable pub is_crypto_15min : MarketPair → Bool
is_crypto_15min pair = leb 100 pair.fee_rate_bps

unfoldable pub complement : MarketPair → Key → Option Key
complement pair token_id =
    if token_id == pair.yes_token_id
    then some pair.no_token_id
    else if token_id == pair.no_token_id
    then some pair.yes_token_id
    else none

unfoldable pub contains_token : MarketPair → Key → Bool
contains_token pair token_id = token_id == pair.yes_token_id || token_id == pair.no_token_id

unfoldable pub is_yes : MarketPair → Key → Bool
is_yes pair token_id = token_id == pair.yes_token_id

unfoldable pub is_no : MarketPair → Key → Bool
is_no pair token_id = token_id == pair.no_token_id

pub record MarketPairRegistry : Type 0 where
  pub by_condition : Dict MarketPair
  pub by_token : Dict MarketPair

unfoldable pub empty_registry : MarketPairRegistry
empty_registry = record { by_condition = []; by_token = [] }

unfoldable pub register : MarketPairRegistry → MarketPair → MarketPairRegistry
register r pair = record {
  by_condition = insert pair.condition_id pair r.by_condition;
  by_token = insert pair.no_token_id pair (insert pair.yes_token_id pair r.by_token);
}

unfoldable pub unregister : MarketPairRegistry → Key → MarketPairRegistry
unregister r condition_id = elim (lookup condition_id r.by_condition) [
  | none ↦ r
  | some pair ↦ record {
    by_condition = erase condition_id r.by_condition;
    by_token = erase pair.no_token_id (erase pair.yes_token_id r.by_token);
  }
]

unfoldable pub get_by_condition : MarketPairRegistry → Key → Option MarketPair
get_by_condition r condition_id = lookup condition_id r.by_condition

unfoldable pub get_by_token : MarketPairRegistry → Key → Option MarketPair
get_by_token r token_id = lookup token_id r.by_token

unfoldable pub get_complement : MarketPairRegistry → Key → Option Key
unfolding get_by_token
get_complement r token_id = elim (get_by_token r token_id) [
  | none ↦ none
  | some pair ↦ complement pair token_id
]

unfoldable pub all_pairs : MarketPairRegistry → List MarketPair
all_pairs r = values r.by_condition

unfoldable pub all_condition_ids : MarketPairRegistry → List Key
all_condition_ids r = map (λ (e : Key × MarketPair). e.0) r.by_condition

unfoldable pub registry_len : MarketPairRegistry → ℕ
registry_len r = length r.by_condition

unfoldable pub filter_pairs : (MarketPair → Bool) → MarketPairRegistry → List MarketPair
filter_pairs predicate r = filter predicate (values r.by_condition)

unfoldable pub crypto_15min_markets : MarketPairRegistry → List MarketPair
crypto_15min_markets = filter_pairs is_crypto_15min
