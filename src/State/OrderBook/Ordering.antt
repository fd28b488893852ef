-- ===== src/State/OrderBook/Ordering.antt =====
-- Both sides of every book stay in order, and the best prices are the extreme ones.
use poly_bot.Prelude.{
  ◌≡◌, refl, Bool, true, false, not, ◌&&◌, Option, none, some, List, [], ◌∷◌, arith, Option-cases,
  inl, inr,
}
use poly_bot.Decimal.{Decimal, eq_of_parts}
use poly_bot.Types.{Key, Side, buy, sell}
use poly_bot.State.OrderBook.{PriceLevel, is_better, remove_at, replace_at, insert_at, set_level}

better_trans :
    (side : Side) (a b c : Decimal)
    → is_better side a b ≡ false
    → is_better side b c ≡ false
    → is_better side a c ≡ false
better_trans buy a b c h k = ground arith
better_trans sell a b c h k = ground arith

pub better_asym :
    (side : Side) (a b : Decimal) → is_better side a b ≡ true → is_better side b a ≡ false
better_asym buy a b h = ground arith
better_asym sell a b h = ground arith

module _ (parse : Key → Option Decimal) (side : Side) where
  -- The levels have prices, none better than `p`, and none better than one before it.
  abbrev pub is_led : Decimal → List PriceLevel → Bool
  is_led p [] = true
  is_led p (l ∷ ls) = elim (parse l.price) [
    | none ↦ false
    | some q ↦ not (is_better side q p) && is_led q ls
  ]

  abbrev pub is_ordered : List PriceLevel → Bool
  is_ordered [] = true
  is_ordered (l ∷ ls) = elim (parse l.price) [ none ↦ false | some q ↦ is_led q ls ]

  pub led_weaker :
      (p q : Decimal) (ls : List PriceLevel)
      → is_better side q p ≡ false
      → is_led q ls ≡ true
      → is_led p ls ≡ true
  led_weaker p q [] h k = refl
  led_weaker p q (l ∷ ls) h k = elim (Option-cases (parse l.price)) [
    | inl no_price ↦ ground arith
    | inr (r, e) ↦ ground (arith, better_trans side r q p)
  ]

  insert_at-led :
      (p m : Decimal) (new : PriceLevel) (ls : List PriceLevel)
      → parse new.price ≡ some p
      → is_better side p m ≡ false
      → is_led m ls ≡ true
      → is_led m (insert_at parse side p new ls) ≡ true
  unfolding insert_at
  insert_at-led p m new [] e h k = ground arith
  insert_at-led p m new (l ∷ ls) e h k = elim (Option-cases (parse l.price)) [
    | inl no_price ↦ ground arith
    | inr (q, at) ↦ ground (arith, better_asym side p q, insert_at-led p q new ls)
  ]

  insert_at-ordered :
      (p : Decimal) (new : PriceLevel) (ls : List PriceLevel)
      → parse new.price ≡ some p
      → is_ordered ls ≡ true
      → is_ordered (insert_at parse side p new ls) ≡ true
  unfolding insert_at
  insert_at-ordered p new [] e k = ground arith
  insert_at-ordered p new (l ∷ ls) e k = elim (Option-cases (parse l.price)) [
    | inl no_price ↦ ground arith
    | inr (q, at) ↦ ground (arith, better_asym side p q, insert_at-led p q new ls)
  ]

  replace_at-led :
      (p m : Decimal) (new : PriceLevel) (ls : List PriceLevel)
      → parse new.price ≡ some p
      → is_led m ls ≡ true
      → is_led m (replace_at parse p new ls) ≡ true
  unfolding replace_at
  replace_at-led p m new [] e k = ground arith
  replace_at-led p m new (l ∷ ls) e k = elim (Option-cases (parse l.price)) [
    | inl no_price ↦ ground arith
    | inr (q, at) ↦ ground (arith, eq_of_parts q p, replace_at-led p q new ls)
  ]

  replace_at-ordered :
      (p : Decimal) (new : PriceLevel) (ls : List PriceLevel)
      → parse new.price ≡ some p
      → is_ordered ls ≡ true
      → is_ordered (replace_at parse p new ls) ≡ true
  unfolding replace_at
  replace_at-ordered p new [] e k = ground arith
  replace_at-ordered p new (l ∷ ls) e k = elim (Option-cases (parse l.price)) [
    | inl no_price ↦ ground arith
    | inr (q, at) ↦ ground (arith, eq_of_parts q p, replace_at-led p q new ls)
  ]

  remove_at-led :
      (p m : Decimal) (ls : List PriceLevel)
      → is_led m ls ≡ true
      → is_led m (remove_at parse p ls) ≡ true
  unfolding remove_at
  remove_at-led p m [] k = refl
  remove_at-led p m (l ∷ ls) k = elim (Option-cases (parse l.price)) [
    | inl no_price ↦ ground arith
    | inr (q, at) ↦ ground (arith, led_weaker m q ls, remove_at-led p q ls)
  ]

  led-ordered : (m : Decimal) (ls : List PriceLevel) → is_led m ls ≡ true → is_ordered ls ≡ true
  led-ordered m [] k = refl
  led-ordered m (l ∷ ls) k = elim (Option-cases (parse l.price)) [
    | inl no_price ↦ ground arith
    | inr (q, at) ↦ ground arith
  ]

  remove_at-ordered :
      (p : Decimal) (ls : List PriceLevel)
      → is_ordered ls ≡ true
      → is_ordered (remove_at parse p ls) ≡ true
  unfolding remove_at
  remove_at-ordered p [] k = refl
  remove_at-ordered p (l ∷ ls) k = elim (Option-cases (parse l.price)) [
    | inl no_price ↦ ground arith
    | inr (q, at) ↦ ground (arith, led-ordered q ls, remove_at-led p q ls)
  ]

  pub set_level-ordered :
      (p size : Decimal) (new : PriceLevel) (ls : List PriceLevel)
      → parse new.price ≡ some p
      → is_ordered ls ≡ true
      → is_ordered (set_level parse side p size new ls) ≡ true
  unfolding set_level
  set_level-ordered p size new ls e k =
      ground
        (arith, remove_at-ordered p ls, replace_at-ordered p new ls, insert_at-ordered p new ls)
