-- ===== src/State/OrderBook/Examples.antt =====
-- A book by a whole message and two levels, where the text n stands for the price n/100, and the
-- theorems there.
use poly_bot.Prelude.{refl, Option, none, some, [], ◌∷◌, ltb, if◌then◌else◌}
use poly_bot.Decimal.{Decimal, dec}
use poly_bot.Types.{Key, buy, sell}
use poly_bot.State.OrderBook.{
  PriceLevel, BookSnapshot, Books, update_book, update_level, best_bid, best_ask, sorted, sort_in,
  set_level, remove_at, replace_at, insert_at,
}
use poly_bot.State.OrderBook.Best.{IsReached, IsTop, best_prices}

abbrev parse : Key → Option Decimal
parse n = if ltb 1000 n then none else some (dec n 2)

abbrev at_price : Key → PriceLevel
at_price n = record { price = n; size = 500 }

abbrev whole_book : Books
whole_book =
    update_book parse [] 5 7 (at_price 40 ∷ at_price 45 ∷ []) (at_price 60 ∷ at_price 55 ∷ []) none
      none

abbrev books : Books
books =
    update_level parse (update_level parse whole_book 5 7 (some buy) 47 300 none none) 5 7
      (some sell) 55 0 none none

books-IsReached : IsReached parse books
books-IsReached = IsReached.level 5 7 (some sell) 55 0 none none (
    IsReached.level 5 7 (some buy) 47 300 none none (
      IsReached.whole 5 7 (at_price 40 ∷ at_price 45 ∷ []) (at_price 60 ∷ at_price 55 ∷ []) none
        none refl refl IsReached.at_start))

abbrev shown : BookSnapshot
shown = record {
  token_id = 5;
  market = 7;
  bids = record { price = 47; size = 300 } ∷ at_price 45 ∷ at_price 40 ∷ [];
  asks = at_price 60 ∷ [];
  last_update = none;
  hash = none;
}

best_prices_example :
    IsTop parse buy (best_bid parse books 5) shown.bids
    × IsTop parse sell (best_ask parse books 5) shown.asks
unfolding update_book update_level best_bid best_ask sorted sort_in set_level remove_at replace_at
    insert_at
best_prices_example = best_prices parse books 5 shown books-IsReached refl
