-- ===== src/Strategy/MathArb/Checks.antt =====
-- What every trade of the arbitrage strategy has passed: a property of all trades with these facts
-- is one of whatever the checks let through.
use poly_bot.Prelude.{
  ℕ, ◌≡◌, refl, true, false, not, Option, none, some, unless-OnSome, OnSome, on_none, on_some,
  unwrap_or, List, [], if◌then◌else◌, ◌==◌, arith, Bool-cases, inl, inr,
}
use poly_bot.Decimal.{
  Decimal, nought, one, eq, lt, le, max, min, DecimalOps, add, sub, mul, div, ceil, eq_of_parts,
}
use poly_bot.Types.{Key}
use poly_bot.State.OrderBook.{BookSnapshot, get_book, best_ask}
use poly_bot.Strategy.MarketPair.{MarketPair, MarketPairRegistry, get_by_token}
use poly_bot.Strategy.EdgeCalculator.{EdgeConfig, quick_edge, quick_check, calculate}
use poly_bot.Strategy.Traits.{OrderIntent, StrategyContext}
use poly_bot.Strategy.MathArb.{
  MathArbStrategy, check_exposure_limit, trade_size_of, exchange_min_order_usdc, effective_min,
  is_eroded, traded, check_prices, check_quick, check_books, check_pair, check_arb_opportunity,
  on_book_update, round_up_to_tick,
}

below_cost :
    ⦃o : DecimalOps⦄ (a b c d : Decimal) → eq a c ≡ true → eq b d ≡ true → add a b ≡ add c d
below_cost a b c d h k =
    let p : a ≡ c = eq_of_parts a c (ground arith) in
    let q : b ≡ d = eq_of_parts b d (ground arith) in rw (p, q) refl

not_eroded :
    ⦃o : DecimalOps⦄ (s : MathArbStrategy) (a b x y : Decimal)
    → le one (add a b) ≡ false
    → is_eroded s a b x y ≡ false
    → le one (add x y) ≡ false
unfolding is_eroded
not_eroded s a b x y h k = elim (Bool-cases (eq x a)) [
  | inl p ↦ elim (Bool-cases (eq y b)) [
    | inl q ↦ rw (below_cost x y a b p q) h
    | inr q ↦ ground arith
  ]
  | inr p ↦ ground arith
]

least_size : (a b c : Decimal) → lt c (max a b) ≡ false → le b c ≡ true
least_size a b c h = ground arith

big_enough :
    ⦃o : DecimalOps⦄ (s : MathArbStrategy) (cheaper size : Decimal)
    → lt size (effective_min s cheaper) ≡ false
    → le s.config.min_position_size size ≡ true
unfolding effective_min
big_enough s cheaper size h =
    least_size (if lt nought cheaper then ceil (div exchange_min_order_usdc cheaper) else one)
      s.config.min_position_size size h

quick_below :
    ⦃o : DecimalOps⦄ (parse : Key → Option Decimal) (config : EdgeConfig) (a b : Option Decimal)
    → OnSome
        (λ (r : Decimal × Decimal × Decimal). le one (add r.0 r.1) ≡ false)
        (quick_edge parse config a b)
quick_below parse config none b = on_none
quick_below parse config (some a) none = on_none
quick_below parse config (some a) (some b) = elim (Bool-cases (le one (add a b))) [
  | inl dear ↦ rw dear on_none
  | inr cheap ↦ elim (Bool-cases (lt (sub one (add a b)) config.min_edge)) [
    | inl thin ↦ rw (cheap, thin) on_none
    | inr thick ↦ rw (cheap, thick) (on_some cheap)
  ]
]

module _ ⦃o : DecimalOps⦄ (parse : Key → Option Decimal) (group_of : ℕ → Key)
    (yes_reason no_reason : Decimal → Key) (s : MathArbStrategy) (pair : MarketPair) (now : ℕ)
    (P : MathArbStrategy × List OrderIntent → Type 0) where
  -- `P` holds of each trade at prices below a dollar, of a size that is large enough, within the
  -- limit of exposure.
  abbrev pub OfTrades : Type 0
  OfTrades =
      (x y size edge : Decimal)
      → le one (add x y) ≡ false
      → le s.config.min_position_size size ≡ true
      → not (check_exposure_limit s (mul (add x y) size)) ≡ false
      → P (traded parse group_of yes_reason no_reason s pair x y size edge now)

module _ ⦃o : DecimalOps⦄ (parse : Key → Option Decimal) (group_of : ℕ → Key)
    (yes_reason no_reason : Decimal → Key) (s : MathArbStrategy) (ctx : StrategyContext)
    (P : MathArbStrategy × List OrderIntent → Type 0) where
  check_prices-OnSome :
      (pair : MarketPair) (yes_book no_book : BookSnapshot) (a b : Decimal)
      → OfTrades parse group_of yes_reason no_reason s pair ctx.now P
      → le one (add a b) ≡ false
      → OnSome P (check_prices parse group_of yes_reason no_reason s pair ctx yes_book no_book a b)
  unfolding check_prices
  check_prices-OnSome pair yes_book no_book a b p h =
      let x = round_up_to_tick a pair.tick_size in
      let y = round_up_to_tick b pair.tick_size in
      let calc =
        calculate parse s.edge_config yes_book no_book pair.fee_rate_bps
          s.config.min_position_size in
      let size = trade_size_of s ctx.ledger.cash.available calc.max_size (add x y) in
      unless-OnSome λ fine. unless-OnSome λ profitable. unless-OnSome λ large.
        unless-OnSome λ within. on_some (
          p x y size calc.actual_edge (not_eroded s a b x y h fine)
            (big_enough s (min x y) size large) within)

  check_quick-OnSome :
      (pair : MarketPair) (yes_book no_book : BookSnapshot)
      (q : Option (Decimal × Decimal × Decimal))
      → OfTrades parse group_of yes_reason no_reason s pair ctx.now P
      → OnSome (λ (r : Decimal × Decimal × Decimal). le one (add r.0 r.1) ≡ false) q
      → OnSome P (check_quick parse group_of yes_reason no_reason s pair ctx yes_book no_book q)
  check_quick-OnSome pair yes_book no_book none p h = on_none
  check_quick-OnSome pair yes_book no_book (some (a, b, edge)) p (on_some h) =
      check_prices-OnSome pair yes_book no_book a b p h

  check_books-OnSome :
      (pair : MarketPair) (yes_book no_book : Option BookSnapshot)
      → OfTrades parse group_of yes_reason no_reason s pair ctx.now P
      → OnSome P (check_books parse group_of yes_reason no_reason s pair ctx yes_book no_book)
  unfolding quick_check
  check_books-OnSome pair (some yes_book) (some no_book) p = unless-OnSome λ two_sided.
      check_quick-OnSome pair yes_book no_book _ p (
        quick_below parse s.edge_config (best_ask parse ctx.books pair.yes_token_id)
          (best_ask parse ctx.books pair.no_token_id))
  check_books-OnSome pair (some yes_book) none p = on_none
  check_books-OnSome pair none no_book p = on_none

  check_pair-OnSome :
      (pair : Option MarketPair) (market : Key)
      → ((q : MarketPair)
          → pair ≡ some q
          → (q.condition_id == market) ≡ true
          → OfTrades parse group_of yes_reason no_reason s q ctx.now P)
      → OnSome P (check_pair parse group_of yes_reason no_reason s pair market ctx)
  unfolding check_arb_opportunity
  check_pair-OnSome none market p = on_none
  check_pair-OnSome (some pair) market p = unless-OnSome λ same. unless-OnSome λ rested.
      check_books-OnSome pair (get_book ctx.books pair.yes_token_id)
        (get_book ctx.books pair.no_token_id) (p pair refl (ground arith))

  unwrap-OnSome :
      (r : Option (MathArbStrategy × List OrderIntent))
      → P (s, [])
      → OnSome P r
      → P (unwrap_or r (s, []))
  unwrap-OnSome none h k = h
  unwrap-OnSome (some r) h (on_some k) = k

  pub on_book_update-holds :
      (registry : MarketPairRegistry) (market token : Key)
      → P (s, [])
      → ((q : MarketPair)
          → get_by_token registry token ≡ some q
          → (q.condition_id == market) ≡ true
          → OfTrades parse group_of yes_reason no_reason s q ctx.now P)
      → P (on_book_update parse group_of yes_reason no_reason registry market token ctx s)
  unfolding on_book_update
  on_book_update-holds registry market token h p =
      unwrap-OnSome _ h
        (unless-OnSome λ on. check_pair-OnSome (get_by_token registry token) market p)
