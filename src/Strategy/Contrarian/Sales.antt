-- ===== src/Strategy/Contrarian/Sales.antt =====
-- What the strategy sells.
use poly_bot.Prelude.{
  ℕ, ◌-◌, ◌/◌, ◌≡◌, refl, ap, Bool, true, false, not, ◌&&◌, Option, none, some, unless, List, [],
  ◌∷◌, filter, any, leb, ◌==◌, arith, Bool-cases, inl, inr,
}
use poly_bot.Prelude.Dict.{Dict, lookup, insert, lookup-insert}
use poly_bot.Decimal.{Decimal, nought, ◌<ℤ◌, le, DecimalOps, truncate}
use poly_bot.Types.{Key, sell, side_eq}
use poly_bot.Ledger.Positions.{is_flat}
use poly_bot.State.OrderBook.{best_bid, mid_price}
use poly_bot.Strategy.MarketPair.{MarketPair, MarketPairRegistry, get_by_token}
use poly_bot.Strategy.Traits.{
  OrderIntent, StrategyContext, new_intent, with_tick_size, with_priority,
}
use poly_bot.Strategy.Contrarian.{ContrarianStrategy, ExitReason, time, cleaned, position_of}
use poly_bot.Strategy.Contrarian.Exits.{
  exit_reason_of, exit_of, exit_intent, next_exit, exits, check_exits, on_tick,
}

-- a sale of this token
abbrev pub is_sale_of : Key → OrderIntent → Bool
is_sale_of token_id x = x.token_id == token_id && side_eq x.side sell

module _ {A : Type 0} where
  -- A filter that keeps the first entry of a key keeps what the key leads to.
  pub lookup-filter_kept :
      (keep : Key × A → Bool) (k : Key) (a : A) (d : Dict A)
      → lookup k d ≡ some a
      → keep (k, a) ≡ true
      → lookup k (filter keep d) ≡ some a
  lookup-filter_kept keep k a [] h p = cc
  lookup-filter_kept keep k a ((j, b) ∷ d) h p = elim (Bool-cases (j == k)) [
    | inl e ↦
        let same : j ≡ k = ground (arith, e) in
        let value : b ≡ a = cc in
        let kept : keep (j, b) ≡ true = rw (same, value) p in rw (kept, e) (ap some value)
    | inr e ↦
        let later : lookup k d ≡ some a = ground arith in
        let rest = lookup-filter_kept keep k a d later p in
        elim (Bool-cases (keep (j, b))) [ inl q ↦ rw (q, e) rest | inr q ↦ rw q rest ]
  ]

  pub lookup-filter_missing :
      (keep : Key × A → Bool) (k : Key) (d : Dict A)
      → lookup k d ≡ none
      → lookup k (filter keep d) ≡ none
  lookup-filter_missing keep k [] h = refl
  lookup-filter_missing keep k ((j, b) ∷ d) h = elim (Bool-cases (j == k)) [
    | inl e ↦ cc
    | inr e ↦
        let later : lookup k d ≡ none = ground arith in
        let rest = lookup-filter_missing keep k d later in
        elim (Bool-cases (keep (j, b))) [ inl q ↦ rw (q, e) rest | inr q ↦ rw q rest ]
  ]

any_next :
    (f : OrderIntent → Bool) (x : Option OrderIntent) (skipped taken : Dict ℕ × List OrderIntent)
    → any f skipped.1 ≡ true
    → any f taken.1 ≡ true
    → any f (next_exit x skipped taken).1 ≡ true
any_next f none skipped taken h k = h
any_next f (some x) skipped taken h k = ground arith

any_first :
    (f : OrderIntent → Bool) (x : Option OrderIntent) (y : OrderIntent)
    (skipped taken : Dict ℕ × List OrderIntent)
    → x ≡ some y
    → f y ≡ true
    → any f (next_exit x skipped taken).1 ≡ true
any_first f none y skipped taken e h = cc
any_first f (some x) y skipped taken e h = let same : x ≡ y = cc in rw (same, h) refl

module _ ⦃o : DecimalOps⦄ (parse : Key → Option Decimal) (registry : MarketPairRegistry)
    (ctx : StrategyContext) where
  -- The token is held and can be sold, whatever the reason.
  pub record CanSell (token_id : Key) : Type 0 where
    pub mid : Decimal
    pub has_mid : mid_price parse ctx.books token_id ≡ some mid
    pub bid : Decimal
    pub has_bid : best_bid parse ctx.books token_id ≡ some bid
    pub pair : MarketPair
    pub has_pair : get_by_token registry token_id ≡ some pair
    pub is_held : is_flat (position_of ctx token_id) ≡ false
    pub is_sizable : nought <ℤ truncate 2 (position_of ctx token_id).shares

module _ ⦃o : DecimalOps⦄ (parse : Key → Option Decimal) (exit_reason : ExitReason → Key)
    (registry : MarketPairRegistry) (ctx : StrategyContext) (s : ContrarianStrategy) where
  exit_of_held :
      (pending : Dict ℕ) (k : Key) (p : Decimal) (t : ℕ) (c : CanSell parse registry ctx k)
      → lookup k pending ≡ none
      → leb s.config.max_hold_secs ((ctx.now - t) / 1000) ≡ true
      → exit_of parse exit_reason registry s pending ctx (k, (p, t))
        ≡ some (
            exit_intent parse exit_reason s c.pair k c.bid
              (truncate 2 (position_of ctx k).shares)
              time
              ctx.now)
  unfolding exit_of exit_reason_of unless
  exit_of_held pending k p t c n h =
      let positive : le (truncate 2 (position_of ctx k).shares) nought ≡ false =
        let z = c.is_sizable in ground arith in
      rw (c.is_held, n, c.has_mid, h, c.has_bid, positive, c.has_pair) refl

  pub sale_of :
      (s : ContrarianStrategy) (pair : MarketPair) (k : Key) (bid size : Decimal) (r : ExitReason)
      (now : ℕ)
      → is_sale_of k (exit_intent parse exit_reason s pair k bid size r now) ≡ true
  unfolding new_intent with_tick_size with_priority
  sale_of s pair k bid size r now = ground arith

  exits_sell :
      (es : Dict (Decimal × ℕ)) (pending : Dict ℕ) (k : Key) (p : Decimal) (t : ℕ)
      → CanSell parse registry ctx k
      → lookup k es ≡ some (p, t)
      → lookup k pending ≡ none
      → leb s.config.max_hold_secs ((ctx.now - t) / 1000) ≡ true
      → any (is_sale_of k) (exits parse exit_reason registry s ctx es pending).1 ≡ true
  unfolding exits
  exits_sell [] pending k p t c e n h = cc
  exits_sell ((j, q) ∷ es) pending k p t c e n h = elim (Bool-cases (j == k)) [
    | inl same ↦
        let key : j ≡ k = ground arith in
        let entry : q ≡ (p, t) = cc in
        let size = truncate 2 (position_of ctx k).shares in
        let x = exit_intent parse exit_reason s c.pair k c.bid size time ctx.now in
        let sells : exit_of parse exit_reason registry s pending ctx (j, q) ≡ some x =
          rw (key, entry) (exit_of_held pending k p t c n h) in
        any_first (is_sale_of k) _ x _ _ sells (sale_of s c.pair k c.bid size time ctx.now)
    | inr other ↦
        let later : lookup k es ≡ some (p, t) = ground arith in
        let unmarked : lookup k (insert j ctx.now pending) ≡ none =
          rw (lookup-insert j k ctx.now pending) (rw other n) in
        any_next (is_sale_of k) (exit_of parse exit_reason registry s pending ctx (j, q)) _ _
          (exits_sell es pending k p t c later n h)
          (exits_sell es (insert j ctx.now pending) k p t c later unmarked h)
  ]

module _ ⦃o : DecimalOps⦄ (parse : Key → Option Decimal) (exit_reason : ExitReason → Key)
    (registry : MarketPairRegistry) where
  pub tick_sells :
      (ctx : StrategyContext) (s : ContrarianStrategy) (k : Key) (p : Decimal) (t : ℕ)
      → s.enabled ≡ true
      → CanSell parse registry ctx k
      → lookup k s.entry_tracking ≡ some (p, t)
      → lookup k s.pending_exit ≡ none
      → leb s.config.max_hold_secs ((ctx.now - t) / 1000) ≡ true
      → any (is_sale_of k) (on_tick parse exit_reason registry ctx s).1 ≡ true
  unfolding on_tick check_exits cleaned exits exit_of exit_reason_of
  tick_sells ctx s k p t b c e n h =
      let s' = cleaned ctx s in
      rw b (
        exits_sell parse exit_reason registry ctx s' s'.entry_tracking s'.pending_exit k p t c
          (lookup-filter_kept _ k (p, t) s.entry_tracking e (ap not c.is_held))
          (lookup-filter_missing _ k s.pending_exit n) h)
