-- ===== src/State/OrderBook.antt =====
-- src/state/order_book.rs: the books by token. Prices and sizes come as texts, which are keys here,
-- and `parse`, the crate's reading of a decimal, is a parameter. A side is the result of the test on
-- the upper-cased text: `buy`, `sell`, or `none` for any other text.
pub mod Ordering
pub mod Best
pub mod Snapshot
mod Examples
use poly_bot.Prelude.{
  ℕ, ◌*◌, ◌^◌, Bool, true, false, not, ◌&&◌, Option, none, some, List, [], ◌∷◌, any, length,
  is_some, unwrap_or, if◌then◌else◌,
}
use poly_bot.Prelude.Dict.{Dict, lookup, insert}
use poly_bot.Decimal.{Decimal, pos, nought, dec, eq, lt, le, DecimalOps, add, sub, div}
use poly_bot.Types.{Key, Side, buy, sell}

-- src/websocket/types.rs
pub record PriceLevel : Type 0 where
  pub price : Key
  pub size : Key

pub record BookSnapshot : Type 0 where
  pub token_id : Key
  pub market : Key
  pub bids : List PriceLevel
  pub asks : List PriceLevel
  pub last_update : Option ℕ
  pub hash : Option Key

abbrev pub Books : Type 0
Books = Dict BookSnapshot

-- `Decimal::MAX`
abbrev pub decimal_max : Decimal
decimal_max = dec 79228162514264337593543950335 0

-- `a` stands before `b` on a side: bids from the highest price, asks from the lowest.
abbrev pub is_better : Side → (a b : Decimal) → Bool
is_better buy a b = lt b a
is_better sell a b = lt a b

-- where a price that is no number sorts
abbrev pub fallback : Side → Decimal
fallback buy = nought
fallback sell = decimal_max

-- the levels of a side
abbrev pub levels_of : Side → BookSnapshot → List PriceLevel
levels_of buy book = book.bids
levels_of sell book = book.asks

abbrev pub with_levels : Side → List PriceLevel → BookSnapshot → BookSnapshot
with_levels buy levels book = record book { bids = levels }
with_levels sell levels book = record book { asks = levels }

abbrev pub empty_book : (token_id market : Key) → Option ℕ → BookSnapshot
empty_book token_id market timestamp = record {
  token_id = token_id;
  market = market;
  bids = [];
  asks = [];
  last_update = timestamp;
  hash = none;
}

module _ (parse : Key → Option Decimal) where
  abbrev pub sort_price : Side → PriceLevel → Decimal
  sort_price side l = unwrap_or (parse l.price) (fallback side)

  -- `sort_by`, which is stable: an element goes before the first that is not strictly better.
  unfoldable pub sort_in : Side → PriceLevel → List PriceLevel → List PriceLevel
  sort_in side l [] = l ∷ []
  sort_in side l (m ∷ ms) =
      let rest = sort_in side l ms in
      if is_better side (sort_price side m) (sort_price side l) then m ∷ rest else l ∷ m ∷ ms

  unfoldable pub sorted : Side → List PriceLevel → List PriceLevel
  sorted side [] = []
  sorted side (l ∷ ls) = sort_in side l (sorted side ls)

  unfoldable pub update_book :
      Books
      → (token_id market : Key) → (bids asks : List PriceLevel) → Option ℕ
      → Option Key
      → Books
  update_book books token_id market bids asks timestamp hash =
      insert token_id
        (record {
          token_id = token_id;
          market = market;
          bids = sorted buy bids;
          asks = sorted sell asks;
          last_update = timestamp;
          hash = hash;
        })
        books

  -- A level whose price is the number `p`.
  abbrev pub is_at : Decimal → PriceLevel → Bool
  is_at p l = elim (parse l.price) [ none ↦ false | some q ↦ eq q p ]

  unfoldable pub remove_at : Decimal → List PriceLevel → List PriceLevel
  remove_at p [] = []
  remove_at p (l ∷ ls) = if is_at p l then ls else l ∷ remove_at p ls

  unfoldable pub replace_at : Decimal → PriceLevel → List PriceLevel → List PriceLevel
  replace_at p new [] = []
  replace_at p new (l ∷ ls) = if is_at p l then new ∷ ls else l ∷ replace_at p new ls

  -- A level that a new one at `p` goes before: a worse price, or none.
  abbrev pub yields : Side → Decimal → PriceLevel → Bool
  yields side p l = elim (parse l.price) [ none ↦ true | some q ↦ is_better side p q ]

  unfoldable pub insert_at : Side → Decimal → PriceLevel → List PriceLevel → List PriceLevel
  insert_at side p new [] = new ∷ []
  insert_at side p new (l ∷ ls) =
      if yields side p l then new ∷ l ∷ ls else l ∷ insert_at side p new ls

  unfoldable pub set_level :
      Side → (price size : Decimal) → PriceLevel → List PriceLevel → List PriceLevel
  set_level side price size new levels =
      if eq size nought
      then remove_at price levels
      else if any (is_at price) levels
      then replace_at price new levels
      else insert_at side price new levels

  -- A side, price or size that cannot be read leaves the levels as they are.
  abbrev pub changed :
      Option Side → (price size : Option Decimal) → PriceLevel → BookSnapshot → BookSnapshot
  changed (some side) (some price) (some size) new book =
      with_levels side (set_level side price size new (levels_of side book)) book
  changed _ _ _ new book = book

  unfoldable pub update_level :
      Books
      → (token_id market : Key) → Option Side
      → (price size : Key) → Option ℕ
      → Option Key
      → Books
  update_level books token_id market side price size timestamp hash =
      let book = unwrap_or (lookup token_id books) (empty_book token_id market timestamp) in
      let book' = record book { last_update = timestamp; hash = hash } in
      insert token_id
        (changed side (parse price) (parse size) (record { price = price; size = size }) book')
        books

  abbrev pub first_price : List PriceLevel → Option Decimal
  first_price [] = none
  first_price (l ∷ ls) = parse l.price

  abbrev pub first_size : List PriceLevel → Option Decimal
  first_size [] = none
  first_size (l ∷ ls) = parse l.size

  unfoldable pub best_bid : Books → Key → Option Decimal
  best_bid books token_id = elim (lookup token_id books) [
    | none ↦ none
    | some book ↦ first_price book.bids
  ]

  unfoldable pub best_ask : Books → Key → Option Decimal
  best_ask books token_id = elim (lookup token_id books) [
    | none ↦ none
    | some book ↦ first_price book.asks
  ]

  unfoldable pub bid_depth : Books → Key → Option Decimal
  bid_depth books token_id = elim (lookup token_id books) [
    | none ↦ none
    | some book ↦ first_size book.bids
  ]

  unfoldable pub ask_depth : Books → Key → Option Decimal
  ask_depth books token_id = elim (lookup token_id books) [
    | none ↦ none
    | some book ↦ first_size book.asks
  ]

  module _ ⦃o : DecimalOps⦄ where
    abbrev pub middle : (bid ask : Option Decimal) → Option Decimal
    middle (some bid) (some ask) = some (div (add bid ask) (dec 2 0))
    middle _ _ = none

    unfoldable pub mid_price : Books → Key → Option Decimal
    mid_price books token_id = middle (best_bid books token_id) (best_ask books token_id)

    abbrev pub gap : (bid ask : Option Decimal) → Option Decimal
    gap (some bid) (some ask) = some (sub ask bid)
    gap _ _ = none

    unfoldable pub spread : Books → Key → Option Decimal
    spread books token_id = gap (best_bid books token_id) (best_ask books token_id)

unfoldable pub get_book : Books → Key → Option BookSnapshot
get_book books token_id = lookup token_id books

unfoldable pub num_markets : Books → ℕ
num_markets books = length books
