-- ===== src/State/OrderBook/Best.antt =====
-- What holds of the books after any messages of the market data, and of their best prices.
use poly_bot.Prelude.{
  ℕ, ◌≡◌, refl, Bool, true, false, ◌&&◌, Option, none, some, List, [], ◌∷◌, any, arith, is_some,
  unwrap_or, Option-cases, inl, inr,
}
use poly_bot.Prelude.Dict.{lookup, insert, lookup-insert}
use poly_bot.Decimal.{Decimal, eq}
use poly_bot.Types.{Key, Side, buy, sell}
use poly_bot.State.OrderBook.{
  PriceLevel, BookSnapshot, Books, is_better, sort_in, sorted, set_level, changed, update_book,
  update_level, empty_book, levels_of, with_levels, first_price, best_bid, best_ask,
}
use poly_bot.State.OrderBook.Ordering.{
  is_led, is_ordered, better_asym, led_weaker, set_level-ordered,
}

module _ (parse : Key → Option Decimal) where
  -- Every level of a list has a price.
  abbrev pub all_priced : List PriceLevel → Bool
  all_priced [] = true
  all_priced (l ∷ ls) = is_some (parse l.price) && all_priced ls

  sort_in-led :
      (side : Side) (p m : Decimal) (l : PriceLevel) (ls : List PriceLevel)
      → parse l.price ≡ some p
      → is_better side p m ≡ false
      → is_led parse side m ls ≡ true
      → is_led parse side m (sort_in parse side l ls) ≡ true
  unfolding sort_in
  sort_in-led side p m l [] e h k = ground arith
  sort_in-led side p m l (x ∷ xs) e h k = elim (Option-cases (parse x.price)) [
    | inl no_price ↦ ground arith
    | inr (q, at) ↦ ground (arith, better_asym side q p, sort_in-led side p q l xs)
  ]

  sort_in-ordered :
      (side : Side) (p : Decimal) (l : PriceLevel) (ls : List PriceLevel)
      → parse l.price ≡ some p
      → is_ordered parse side ls ≡ true
      → is_ordered parse side (sort_in parse side l ls) ≡ true
  unfolding sort_in
  sort_in-ordered side p l [] e k = ground arith
  sort_in-ordered side p l (x ∷ xs) e k = elim (Option-cases (parse x.price)) [
    | inl no_price ↦ ground arith
    | inr (q, at) ↦ ground (arith, better_asym side q p, sort_in-led side p q l xs)
  ]

  sorted-ordered :
      (side : Side) (ls : List PriceLevel)
      → all_priced ls ≡ true
      → is_ordered parse side (sorted parse side ls) ≡ true
  unfolding sorted
  sorted-ordered side [] h = refl
  sorted-ordered side (l ∷ ls) h = elim (Option-cases (parse l.price)) [
    | inl no_price ↦ ground arith
    | inr (p, at) ↦
        sort_in-ordered side p l (sorted parse side ls) at (sorted-ordered side ls (ground arith))
  ]

  abbrev pub is_book_ordered : BookSnapshot → Bool
  is_book_ordered book = is_ordered parse buy book.bids && is_ordered parse sell book.asks

  abbrev pub AreOrdered : Books → Type 0
  AreOrdered books =
      (k : Key) (book : BookSnapshot) → lookup k books ≡ some book → is_book_ordered book ≡ true

  with_levels-ordered :
      (side : Side) (p s : Decimal) (new : PriceLevel) (book : BookSnapshot)
      → parse new.price ≡ some p
      → is_book_ordered book ≡ true
      → is_book_ordered (with_levels side (set_level parse side p s new (levels_of side book)) book)
        ≡ true
  with_levels-ordered buy p s new book e h =
      ground (arith, set_level-ordered parse buy p s new book.bids e)
  with_levels-ordered sell p s new book e h =
      ground (arith, set_level-ordered parse sell p s new book.asks e)

  changed-ordered :
      (side : Option Side) (price size : Key) (book : BookSnapshot)
      → is_book_ordered book ≡ true
      → is_book_ordered (
          changed parse side
            (parse price)
            (parse size)
            (record { price = price; size = size })
            book)
        ≡ true
  changed-ordered none price size book h = h
  changed-ordered (some side) price size book h = elim (Option-cases (parse price)) [
    | inl no_price ↦ rw no_price h
    | inr (p, e) ↦ elim (Option-cases (parse size)) [
      | inl no_size ↦ rw (e, no_size) h
      | inr (s, e') ↦
          rw (e, e') (with_levels-ordered side p s (record { price = price; size = size }) book e h)
    ]
  ]

  insert-AreOrdered :
      (k : Key) (new : BookSnapshot) (books : Books)
      → AreOrdered books
      → is_book_ordered new ≡ true
      → AreOrdered (insert k new books)
  insert-AreOrdered k new books h n j book e = ground (arith, lookup-insert k j new books, h j book)

  -- the book that a level message changes
  abbrev touched : Books → (k market : Key) → Option ℕ → Option Key → BookSnapshot
  touched books k market t hash = record (unwrap_or (lookup k books) (empty_book k market t)) {
    last_update = t;
    hash = hash;
  }

  touched_ordered :
      (books : Books) (k market : Key) (t : Option ℕ) (hash : Option Key)
      → AreOrdered books
      → is_book_ordered (touched books k market t hash) ≡ true
  touched_ordered books k market t hash h = elim (Option-cases (lookup k books)) [
    | inl missing ↦ rw missing refl
    | inr (old, found) ↦ rw found (h k old found)
  ]

  update_level-ordered :
      (books : Books) (k market : Key) (side : Option Side) (price size : Key) (t : Option ℕ)
      (hash : Option Key)
      → AreOrdered books
      → AreOrdered (update_level parse books k market side price size t hash)
  unfolding update_level
  update_level-ordered books k market side price size t hash h = insert-AreOrdered k _ books h (
      changed-ordered side price size (touched books k market t hash)
        (touched_ordered books k market t hash h))

  update_book-ordered :
      (books : Books) (k market : Key) (bids asks : List PriceLevel) (t : Option ℕ)
      (hash : Option Key)
      → all_priced bids ≡ true
      → all_priced asks ≡ true
      → AreOrdered books
      → AreOrdered (update_book parse books k market bids asks t hash)
  unfolding update_book
  update_book-ordered books k market bids asks t hash pb pa h =
      insert-AreOrdered k _ books h
        (ground (arith, sorted-ordered buy bids pb, sorted-ordered sell asks pa))

  -- A message of the market data: a whole book, or one level.
  pub data IsReached : Books → Type 0 where
    at_start : IsReached []
    whole :
        {books : Books} (k market : Key) (bids asks : List PriceLevel) (t : Option ℕ)
        (hash : Option Key)
        → all_priced bids ≡ true
        → all_priced asks ≡ true
        → IsReached books
        → IsReached (update_book parse books k market bids asks t hash)
    level :
        {books : Books} (k market : Key) (side : Option Side) (price size : Key) (t : Option ℕ)
        (hash : Option Key)
        → IsReached books
        → IsReached (update_level parse books k market side price size t hash)

  -- After any messages, where the prices of a whole book can be read, every bid has a price that is
  -- not above the one before it, and every ask one that is not below it.
  pub IsReached-AreOrdered : (books : Books) → IsReached books → AreOrdered books
  IsReached-AreOrdered _ at_start = λ k book e. cc
  IsReached-AreOrdered _ (whole {books} k market bids asks t hash pb pa h) =
      update_book-ordered books k market bids asks t hash pb pa (IsReached-AreOrdered books h)
  IsReached-AreOrdered _ (level {books} k market side price size t hash h) =
      update_level-ordered books k market side price size t hash (IsReached-AreOrdered books h)

  -- A level with a price better than `p`.
  abbrev pub beats : Side → Decimal → PriceLevel → Bool
  beats side p l = elim (parse l.price) [ none ↦ false | some q ↦ is_better side q p ]

  none_beats :
      (side : Side) (p : Decimal) (ls : List PriceLevel)
      → is_led parse side p ls ≡ true
      → any (beats side p) ls ≡ false
  none_beats side p [] h = refl
  none_beats side p (l ∷ ls) h = elim (Option-cases (parse l.price)) [
    | inl no_price ↦ ground arith
    | inr (q, e) ↦ ground (arith, led_weaker parse side p q ls, none_beats side p ls)
  ]

  -- A level whose price is `p`.
  abbrev pub is_at : Decimal → PriceLevel → Bool
  is_at p l = elim (parse l.price) [ none ↦ false | some q ↦ eq q p ]

  -- No price where there is no level; else the price of some level, which none beats.
  abbrev pub IsTop : Side → Option Decimal → List PriceLevel → Type 0
  IsTop side none ls = ls ≡ []
  IsTop side (some p) ls = (any (is_at p) ls ≡ true) × (any (beats side p) ls ≡ false)

  first_best :
      (side : Side) (ls : List PriceLevel)
      → is_ordered parse side ls ≡ true
      → IsTop side (first_price parse ls) ls
  first_best side [] h = refl
  first_best side (l ∷ ls) h = elim (Option-cases (parse l.price)) [
    | inl no_price ↦ ground arith
    | inr (p, e) ↦ rw (e, IsTop) (ground arith, ground (arith, none_beats side p ls))
  ]

  -- After any messages, where the prices of a whole book can be read, a book without bids has no
  -- best bid, and in any other the best bid is the price of one of its bids, and no bid is higher;
  -- likewise the best ask, where no ask is lower.
  pub best_prices :
      (books : Books) (k : Key) (book : BookSnapshot)
      → IsReached books
      → lookup k books ≡ some book
      → IsTop buy (best_bid parse books k) book.bids × IsTop sell (best_ask parse books k) book.asks
  unfolding best_bid best_ask
  best_prices books k book h found =
      let ordered = IsReached-AreOrdered books h k book found in
      rw (found, IsTop)
        (first_best buy book.bids (ground arith), first_best sell book.asks (ground arith))
