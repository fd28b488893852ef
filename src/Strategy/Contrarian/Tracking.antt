-- ===== src/Strategy/Contrarian/Tracking.antt =====
-- What keeps a token tracked, and no sale of it pending.
use poly_bot.Prelude.{
  ℕ, ◌-◌, ◌/◌, ◌≡◌, refl, ap, Bool, true, false, not, ◌||◌, Option, none, some, List, [], ◌∷◌, any,
  is_some, OnSome, on_none, on_some, unless-OnSome, ◌==◌, arith, Bool-cases, inl, inr,
}
use poly_bot.Prelude.Dict.{Dict, lookup, insert, erase, lookup-insert, lookup-erase}
use poly_bot.Decimal.{Decimal, DecimalOps, truncate}
use poly_bot.Types.{Key, Side, buy, sell, side_eq}
use poly_bot.Ledger.Positions.{Fill, is_flat}
use poly_bot.State.OrderBook.{mid_price, best_bid}
use poly_bot.Strategy.MarketPair.{MarketPairRegistry, get_by_token}
use poly_bot.Strategy.Traits.{OrderIntent, StrategyContext}
use poly_bot.Strategy.Contrarian.{
  ContrarianConfig, ContrarianStrategy, ExitReason, on_fill, cleaned, position_of,
}
use poly_bot.Strategy.Contrarian.Exits.{
  exit_of, exits, exit_reason_of, gain_of, check_exits, on_tick, next_exit,
}
use poly_bot.Strategy.Contrarian.Sales.{
  is_sale_of, lookup-filter_kept, lookup-filter_missing, sale_of,
}

-- What the strategy is told.
pub data Event : Type 0 where
  book_updated : (market_id token_id : Key) → StrategyContext → Event
  filled : Fill → StrategyContext → Event
  ticked : StrategyContext → Event

-- A fill that is not a sale of the token, a tick at which it is held, or a book update.
abbrev pub keeps : Key → Event → Bool
keeps k (book_updated market_id token_id ctx) = true
keeps k (filled f ctx) = not (f.token_id == k) || side_eq f.side buy
keeps k (ticked ctx) = not (is_flat (position_of ctx k))

-- The token is tracked since `t`, and no sale of it is pending.
pub record Tracks (config : ContrarianConfig) (k t : ℕ) (s : ContrarianStrategy) : Type 0 where
  pub is_on : s.enabled ≡ true
  pub same_config : s.config ≡ config
  pub price : Decimal
  pub entry : lookup k s.entry_tracking ≡ some (price, t)
  pub unsold : lookup k s.pending_exit ≡ none

elim-OnSome :
    {A : Type 0} {P : OrderIntent → Type 0} {f : A → Option OrderIntent} (x : Option A)
    → ((a : A) → OnSome P (f a))
    → OnSome P (elim x [ none ↦ none | some a ↦ f a ])
elim-OnSome none h = on_none
elim-OnSome (some a) h = h a

insert_tracked :
    (config : ContrarianConfig) (k j t : ℕ) (e : Decimal × ℕ) (s : ContrarianStrategy)
    → (j == k) ≡ false
    → Tracks config k t s
    → Tracks config k t (record s { entry_tracking = insert j e s.entry_tracking })
insert_tracked config k j t e s other h = record {
  is_on = h.is_on;
  same_config = h.same_config;
  price = h.price;
  entry = rw (lookup-insert j k e s.entry_tracking) (rw other h.entry);
  unsold = h.unsold;
}

erase_tracked :
    (config : ContrarianConfig) (k j t : ℕ) (s : ContrarianStrategy)
    → (j == k) ≡ false
    → Tracks config k t s
    → Tracks config k t (record s {
      entry_tracking = erase j s.entry_tracking;
      pending_exit = erase j s.pending_exit;
    })
erase_tracked config k j t s other h = record {
  is_on = h.is_on;
  same_config = h.same_config;
  price = h.price;
  entry = rw (lookup-erase j k s.entry_tracking) (rw other h.entry);
  unsold = rw (lookup-erase j k s.pending_exit) (rw other h.unsold);
}

pub on_fill-Tracks :
    (config : ContrarianConfig) (k t : ℕ) (f : Fill) (ctx : StrategyContext)
    (s : ContrarianStrategy)
    → keeps k (filled f ctx) ≡ true
    → Tracks config k t s
    → Tracks config k t (on_fill f ctx s).0
unfolding on_fill
on_fill-Tracks config k t f ctx s q h = go f.side refl
  where
    go : (side : Side) → f.side ≡ side → Tracks config k t (on_fill f ctx s).0
    go sell e =
        let other : (f.token_id == k) ≡ false = ground (arith, q, e) in
        rw e (erase_tracked config k f.token_id t s other h)
    go buy e = elim (Bool-cases (is_some (lookup f.token_id s.entry_tracking))) [
      | inl tracked ↦ rw (e, tracked) h
      | inr untracked ↦
          let other : (f.token_id == k) ≡ false =
            let entry = h.entry in ground (arith, entry, untracked) in
          rw (e, untracked) (insert_tracked config k f.token_id t (f.price, ctx.now) s other h)
    ]

next_unsold :
    (k j : Key) (x : Option OrderIntent) (skipped sold : Dict ℕ × List OrderIntent)
    → OnSome (λ (x : OrderIntent). is_sale_of j x ≡ true) x
    → (any (is_sale_of k) skipped.1 ≡ false → lookup k skipped.0 ≡ none)
    → ((j == k) ≡ false → any (is_sale_of k) sold.1 ≡ false → lookup k sold.0 ≡ none)
    → any (is_sale_of k) (next_exit x skipped sold).1 ≡ false
    → lookup k (next_exit x skipped sold).0 ≡ none
next_unsold k j none skipped sold q g h n = g n
next_unsold k j (some x) skipped sold (on_some q) g h n = elim (Bool-cases (j == k)) [
  | inr other ↦ h other (ground (arith, n))
  | inl same ↦
      let key : j ≡ k = ground (arith, same) in
      let sale : is_sale_of k x ≡ true = rw (← key) q in absurd (ground (arith, sale, n))
]

module _ ⦃o : DecimalOps⦄ (parse : Key → Option Decimal) (exit_reason : ExitReason → Key)
    (registry : MarketPairRegistry) where
  -- What the loop sells for an entry is its token.
  exit_of-sells :
      (s : ContrarianStrategy) (ctx : StrategyContext) (pending : Dict ℕ) (j : Key) (p : Decimal)
      (t : ℕ)
      → OnSome
          (λ (x : OrderIntent). is_sale_of j x ≡ true)
          (exit_of parse exit_reason registry s pending ctx (j, (p, t)))
  unfolding exit_of
  exit_of-sells s ctx pending j p t = unless-OnSome λ held. unless-OnSome λ unmarked.
      elim-OnSome (mid_price parse ctx.books j) λ mid.
        elim-OnSome (exit_reason_of s ((ctx.now - t) / 1000) (gain_of p mid)) λ r.
          elim-OnSome (best_bid parse ctx.books j) λ bid. unless-OnSome λ sizable.
            elim-OnSome (get_by_token registry j) λ pair. on_some (
              sale_of parse exit_reason registry ctx s s pair j bid
                (truncate 2 (position_of ctx j).shares) r ctx.now)

  exits_unsold :
      (s : ContrarianStrategy) (ctx : StrategyContext) (k : Key) (es : Dict (Decimal × ℕ))
      (pending : Dict ℕ)
      → lookup k pending ≡ none
      → any (is_sale_of k) (exits parse exit_reason registry s ctx es pending).1 ≡ false
      → lookup k (exits parse exit_reason registry s ctx es pending).0 ≡ none
  unfolding exits
  exits_unsold s ctx k [] pending h n = h
  exits_unsold s ctx k ((j, (p, t)) ∷ es) pending h n =
      next_unsold k j _ _ _ (exit_of-sells s ctx pending j p t) (exits_unsold s ctx k es pending h)
        (λ other.
          exits_unsold s ctx k es (insert j ctx.now pending)
            (rw (lookup-insert j k ctx.now pending) (rw other h)))
        n

  checked_tick :
      (ctx : StrategyContext) (s : ContrarianStrategy)
      → s.enabled ≡ true
      → on_tick parse exit_reason registry ctx s
        ≡ check_exits parse exit_reason registry ctx (cleaned ctx s)
  unfolding on_tick
  checked_tick ctx s on = ground (arith, on)

  check_exits-Tracks :
      (config : ContrarianConfig) (k t : ℕ) (ctx : StrategyContext) (s : ContrarianStrategy)
      → is_flat (position_of ctx k) ≡ false
      → Tracks config k t s
      → any (is_sale_of k) (check_exits parse exit_reason registry ctx (cleaned ctx s)).1 ≡ false
      → Tracks config k t (check_exits parse exit_reason registry ctx (cleaned ctx s)).0
  unfolding check_exits cleaned
  check_exits-Tracks config k t ctx s held h n = record {
    is_on = h.is_on;
    same_config = h.same_config;
    price = h.price;
    entry = lookup-filter_kept _ k (h.price, t) s.entry_tracking h.entry (ap not held);
    unsold =
        let s' = cleaned ctx s in
        exits_unsold s' ctx k s'.entry_tracking s'.pending_exit
          (lookup-filter_missing _ k s.pending_exit h.unsold) n;
  }

  pub tick-Tracks :
      (config : ContrarianConfig) (k t : ℕ) (ctx : StrategyContext) (s : ContrarianStrategy)
      → is_flat (position_of ctx k) ≡ false
      → any (is_sale_of k) (on_tick parse exit_reason registry ctx s).1 ≡ false
      → Tracks config k t s
      → Tracks config k t (on_tick parse exit_reason registry ctx s).0
  tick-Tracks config k t ctx s held n h =
      let checked = checked_tick ctx s h.is_on in
      rw checked (check_exits-Tracks config k t ctx s held h (rw (← checked) n))
