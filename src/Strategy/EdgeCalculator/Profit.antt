-- ===== src/Strategy/EdgeCalculator/Profit.antt =====
-- What a profitable calculation promises, and that the quick check lets it pass.
use poly_bot.Prelude.{
  ℕ, ◌≡◌, refl, ◌∙◌, Bool, true, false, ◌&&◌, Option, none, some, unwrap_or, arith,
}
use poly_bot.Prelude.Dict.{lookup}
use poly_bot.Decimal.{
  Decimal, nought, one, lt, le, max, DecimalOps, IsExact, add, sub, ◌≤ℤ◌, ◌<ℤ◌, add_exact,
  sub_exact,
}
use poly_bot.Types.{Key}
use poly_bot.State.OrderBook.{BookSnapshot, Books, best_ask}
use poly_bot.State.OrderBook.Snapshot.{book_best_ask}
use poly_bot.Strategy.EdgeCalculator.{
  EdgeConfig, min_depth, sum_of, required_by, components_of, calculate, quick_edge, quick_check,
}

-- A best ask that is no negative number.
abbrev pub is_fair : Option Decimal → Bool
is_fair none = true
is_fair (some a) = le nought a

-- What is known of both asks when some edge is left.
asks_known :
    ⦃o : DecimalOps⦄ ⦃ex : IsExact⦄ (a b : Option Decimal) (need : Decimal)
    → is_fair a ≡ true
    → is_fair b ≡ true
    → nought <ℤ need
    → need ≤ℤ sub one (add (unwrap_or a one) (unwrap_or b one))
    → (x : Decimal) × (y : Decimal) × (a ≡ some x) × (b ≡ some y) × (add (add x y) need ≤ℤ one)
asks_known (some x) (some y) need h k p q =
    (x, y, refl, refl, omega (arith, q, p, sub_exact one (add x y), add_exact (add x y) need))
asks_known (some x) none need h k p q =
    absurd (ground (arith, q, p, h, sub_exact one (add x one), add_exact x one))
asks_known none (some y) need h k p q =
    absurd (ground (arith, q, p, k, sub_exact one (add one y), add_exact one y))
asks_known none none need h k p q =
    absurd (omega (arith, q, p, sub_exact one (add one one), add_exact one one))

need_of : (a b c : Decimal) → le (max a b) c ≡ true → b ≤ℤ c
need_of a b c h = ground arith

both : (a b : Bool) → (a && b) ≡ true → (a ≡ true) × (b ≡ true)
both a b h = (ground arith, ground arith)

not_le : (a b : Decimal) → b <ℤ a → le a b ≡ false
not_le a b h = ground arith

not_lt : (a b : Decimal) → b ≤ℤ a → lt a b ≡ false
not_lt a b h = ground arith

is_le : (a b : Decimal) → le a b ≡ true → a ≤ℤ b
is_le a b h = ground arith

best_ask_of :
    (parse : Key → Option Decimal) (books : Books) (token : Key) (book : BookSnapshot)
    → lookup token books ≡ some book
    → best_ask parse books token ≡ book_best_ask parse book
unfolding best_ask book_best_ask
best_ask_of parse books token book h = rw (h, best_ask) refl

quick_passes :
    ⦃o : DecimalOps⦄ ⦃ex : IsExact⦄ (parse : Key → Option Decimal) (config : EdgeConfig)
    (a b : Decimal)
    → nought <ℤ config.min_edge
    → add (add a b) config.min_edge ≤ℤ one
    → quick_edge parse config (some a) (some b) ≡ some (a, b, sub one (add a b))
quick_passes parse config a b p m =
    let below : le one (add a b) ≡ false =
      not_le one (add a b) (omega (arith, add_exact (add a b) config.min_edge)) in
    let enough : lt (sub one (add a b)) config.min_edge ≡ false =
      not_lt (sub one (add a b)) config.min_edge
        (omega (arith, sub_exact one (add a b), add_exact (add a b) config.min_edge)) in
    rw (below, enough) refl

module _ ⦃o : DecimalOps⦄ ⦃ex : IsExact⦄ (parse : Key → Option Decimal) (config : EdgeConfig)
    (yes_book no_book : BookSnapshot) (fee_rate_bps : ℕ) (size : Decimal) where
  -- Under a positive minimum of the edge, a profitable calculation has an ask on both sides, the
  -- two of which cost a dollar less the minimum at most, and at least the intended size at each,
  -- where no ask is negative and sums and differences are exact.
  pub profitable_lem :
      nought <ℤ config.min_edge
      → is_fair (book_best_ask parse yes_book) ≡ true
      → is_fair (book_best_ask parse no_book) ≡ true
      → (calculate parse config yes_book no_book fee_rate_bps size).is_profitable ≡ true
      → (a : Decimal) × (b : Decimal) × (book_best_ask parse yes_book ≡ some a)
        × (book_best_ask parse no_book ≡ some b)
        × (add (add a b) config.min_edge ≤ℤ one)
        × (size ≤ℤ min_depth parse config yes_book no_book)
  unfolding calculate
  profitable_lem p fair fair' h =
      let a = book_best_ask parse yes_book in
      let b = book_best_ask parse no_book in
      let cost = add (unwrap_or a one) (unwrap_or b one) in
      let c = components_of parse config yes_book no_book fee_rate_bps cost size in
      let (edge, deep) = both (le (required_by parse config c) (sub one cost)) _ h in
      let (x, y, e, f, m) =
        asks_known a b config.min_edge fair fair' p
          (need_of (sum_of parse config c) config.min_edge (sub one cost) edge) in
      (x, y, e, f, m, is_le size (min_depth parse config yes_book no_book) deep)

  -- The quick check lets every profitable opportunity pass, with the two asks and the edge that is
  -- left, under the same conditions.
  pub quick_check_lem :
      (books : Books) (yes_token no_token : Key)
      → lookup yes_token books ≡ some yes_book
      → lookup no_token books ≡ some no_book
      → nought <ℤ config.min_edge
      → is_fair (book_best_ask parse yes_book) ≡ true
      → is_fair (book_best_ask parse no_book) ≡ true
      → (calculate parse config yes_book no_book fee_rate_bps size).is_profitable ≡ true
      → (a : Decimal) × (b : Decimal) × (quick_check parse config books yes_token no_token
          ≡ some (a, b, sub one (add a b)))
        × (add (add a b) config.min_edge ≤ℤ one)
  quick_check_lem books yes_token no_token y n p fair fair' h =
      let (a, b, e, f, m, deep) = profitable_lem p fair fair' h in
      let asks : quick_check parse config books yes_token no_token
          ≡ quick_edge parse config (some a) (some b) =
        unfold quick_check in
        rw
          (
            best_ask_of parse books yes_token yes_book y,
            best_ask_of parse books no_token no_book n,
            e,
            f,
          )
          refl in
      (a, b, asks ∙ quick_passes parse config a b p m, m)
