-- ===== src/State/OrderBook/Snapshot.antt =====
-- src/state/order_book.rs: the methods of one book, and the rest of those of the state. `to_u32` is
-- the crate's conversion of a decimal.
use poly_bot.Prelude.{
  zero, suc, ℕ, Bool, false, not, ◌&&◌, Option, none, some, List, [], ◌∷◌, map, is_empty,
  if◌then◌else◌,
}
use poly_bot.Prelude.Dict.{lookup, erase}
use poly_bot.Decimal.{Decimal, dec, nought, eq, le, DecimalOps, mul, div}
use poly_bot.Types.{Key}
use poly_bot.State.OrderBook.{
  PriceLevel, BookSnapshot, Books, first_price, middle, gap, spread, mid_price,
}

unfoldable pub book_is_two_sided : BookSnapshot → Bool
book_is_two_sided book = not (is_empty book.bids) && not (is_empty book.asks)

unfoldable pub is_two_sided : Books → Key → Bool
unfolding book_is_two_sided
is_two_sided books token_id = elim (lookup token_id books) [
  | none ↦ false
  | some book ↦ book_is_two_sided book
]

unfoldable pub token_ids : Books → List Key
token_ids = map (λ (e : Key × BookSnapshot). e.0)

unfoldable pub remove_token : Books → Key → Books × Option BookSnapshot
remove_token books token_id = (erase token_id books, lookup token_id books)

unfoldable pub clear : Books → Books
clear books = []

abbrev pub take {ℓ} : {A : Type ℓ} → ℕ → List A → List A
take zero xs = []
take (suc n) [] = []
take (suc n) (x ∷ xs) = x ∷ take n xs

module _ (parse : Key → Option Decimal) where
  unfoldable pub book_best_bid : BookSnapshot → Option Decimal
  book_best_bid book = first_price parse book.bids

  unfoldable pub book_best_ask : BookSnapshot → Option Decimal
  book_best_ask book = first_price parse book.asks

  abbrev pub is_crossing : (bid ask : Option Decimal) → Bool
  is_crossing (some bid) (some ask) = le ask bid
  is_crossing _ _ = false

  unfoldable pub is_crossed : BookSnapshot → Bool
  is_crossed book = is_crossing (book_best_bid book) (book_best_ask book)

  -- a level whose price and size can both be read
  abbrev pub read_level : PriceLevel → List (Decimal × Decimal) → List (Decimal × Decimal)
  read_level l rest = elim (parse l.price) [
    | none ↦ rest
    | some p ↦ elim (parse l.size) [ none ↦ rest | some s ↦ (p, s) ∷ rest ]
  ]

  unfoldable pub read_levels : List PriceLevel → List (Decimal × Decimal)
  read_levels [] = []
  read_levels (l ∷ ls) = read_level l (read_levels ls)

  unfoldable pub top_levels : Books → Key → ℕ → List (Decimal × Decimal) × List (Decimal × Decimal)
  top_levels books token_id n = elim (lookup token_id books) [
    | none ↦ ([], [])
    | some book ↦ (read_levels (take n book.bids), read_levels (take n book.asks))
  ]

  module _ ⦃o : DecimalOps⦄ where
    unfoldable pub book_mid_price : BookSnapshot → Option Decimal
    book_mid_price book = middle parse (book_best_bid book) (book_best_ask book)

    unfoldable pub book_spread : BookSnapshot → Option Decimal
    book_spread book = gap parse (book_best_bid book) (book_best_ask book)

    abbrev pub in_bps : (to_u32 : Decimal → Option ℕ) → (spread mid : Option Decimal) → Option ℕ
    in_bps to_u32 (some spread) (some mid) =
        if eq mid nought then none else to_u32 (mul (div spread mid) (dec 10_000 0))
    in_bps to_u32 _ _ = none

    unfoldable pub spread_bps : (to_u32 : Decimal → Option ℕ) → Books → Key → Option ℕ
    spread_bps to_u32 books token_id =
        in_bps to_u32 (spread parse books token_id) (mid_price parse books token_id)
