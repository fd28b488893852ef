-- ===== src/Orchestrator/Intents/Solvency.antt =====
-- Paper trading does not run into debt.
use poly_bot.Prelude.{
  ℕ, suc, ◌≡◌, ◌≤◌, true, Option, none, some, List, [], ◌∷◌, All, OnSome, on_none, on_some,
  contains, arith, Bool-cases, Option-cases, inl, inr,
}
use poly_bot.Prelude.Dict.{lookup}
use poly_bot.Decimal.{
  Decimal, nought, one, dec, le, ◌≤ℤ◌, DecimalOps, IsExact, HasSigns, HasRates, add_exact,
  sub_exact, add, mul,
}
use poly_bot.Types.{Key, Side, buy, sell}
use poly_bot.Ledger.{Ledger, process_fill, settle_fill, resolve, settle}
use poly_bot.Ledger.Cash.{CashBalance, settle_buy, settle_sell, deduct_fee, withdraw, can_afford}
use poly_bot.Ledger.Positions.{Fill, fill_notional}
use poly_bot.State.OrderBook.{Books, PriceLevel, first_price, best_ask, best_bid}
use poly_bot.Strategy.MarketPair.{MarketPairRegistry}
use poly_bot.Strategy.Traits.{OrderIntent}
use poly_bot.Orchestrator.Intents.{
  fee_rate_of, within_limit, counterside, fill_price_of, paper_fill, paper_fee, prepared, filled_at,
  simulate_at, simulate_paper_fills,
}

-- The available cash covers the amount, and is not negative.
abbrev Covers : CashBalance → Decimal → Type 0
Covers c fee = (nought ≤ℤ c.available) × (fee ≤ℤ c.available)

module _ ⦃o : DecimalOps⦄ ⦃ex : IsExact⦄ where
  deduct_fee-solvent :
      (c : CashBalance) (fee : Decimal) → Covers c fee → nought ≤ℤ (deduct_fee c fee).available
  unfolding deduct_fee
  deduct_fee-solvent c fee (h, k) = ground (arith, sub_exact c.available fee)

  settle_buy-Covers :
      (c : CashBalance) (n fee : Decimal) → Covers c fee → Covers (settle_buy c n).0 fee
  unfolding settle_buy
  settle_buy-Covers c n fee h = ground arith

  settle_sell-Covers :
      (c : CashBalance) (n fee : Decimal)
      → nought ≤ℤ c.available
      → nought ≤ℤ n
      → fee ≤ℤ n
      → Covers (settle_sell c n) fee
  unfolding settle_sell
  settle_sell-Covers c n fee h p q = ground (arith, add_exact c.available n)

  withdraw-Covers :
      (c : CashBalance) (n fee : Decimal)
      → nought ≤ℤ n
      → nought ≤ℤ fee
      → can_afford c (add n fee) ≡ true
      → Covers (withdraw c n).0 fee
  unfolding withdraw can_afford
  withdraw-Covers c n fee p q h = ground (arith, add_exact n fee, sub_exact c.available n)

  process_fill-solvent :
      (l : Ledger) (f : Fill) (now : ℕ)
      → nought ≤ℤ l.cash.available
      → Covers (settle f.side l.cash (fill_notional f)) f.fee
      → nought ≤ℤ (process_fill l f now).cash.available
  unfolding process_fill settle_fill resolve
  process_fill-solvent l f now h c = elim (Bool-cases (contains f.fill_id l.seen_fill_ids)) [
    | inl seen ↦ rw seen h
    | inr new ↦ rw new (deduct_fee-solvent _ f.fee c)
  ]

  -- Once the order of this side is settled, the cash covers the fee.
  abbrev Affords : (side : Side) → (n fee : Decimal) → Ledger → Type 0
  Affords side n fee l = (nought ≤ℤ l.cash.available) × Covers (settle side l.cash n) fee

  prepared-Affords :
      (side : Side) (n fee : Decimal) (l : Ledger)
      → nought ≤ℤ fee
      → fee ≤ℤ n
      → nought ≤ℤ l.cash.available
      → OnSome (Affords side n fee) (prepared side n fee l)
  prepared-Affords buy n fee l p q h = elim (Bool-cases (can_afford l.cash (add n fee))) [
    | inl able ↦
        let c = withdraw-Covers l.cash n fee (omega arith) p able in
        rw able (on_some (c.0, settle_buy-Covers _ n fee c))
    | inr short ↦ rw short on_none
  ]
  prepared-Affords sell n fee l p q h =
      on_some (h, settle_sell-Covers l.cash n fee h (omega arith) q)

  filled_at-solvent :
      (ids : Key × Key) (x : OrderIntent) (p fee : Decimal) (now : ℕ) (l : Ledger)
      (l' : Option Ledger)
      → nought ≤ℤ l.cash.available
      → OnSome (Affords x.side (mul p x.size) fee) l'
      → nought ≤ℤ (filled_at ids x p fee now l l').cash.available
  unfolding fill_notional
  filled_at-solvent ids x p fee now l none h on_none = h
  filled_at-solvent ids x p fee now l (some l') h (on_some a) =
      process_fill-solvent l' (paper_fill ids x p fee now) now a.0 a.1

-- No fee is more than what is traded.
abbrev pub HasFairFees : MarketPairRegistry → Type 0
HasFairFees registry = (token_id : Key) → fee_rate_of registry token_id ≤ 10_000

rate-bounds : (n : ℕ) → n ≤ 10_000 → (nought ≤ℤ dec n 4) × (dec n 4 ≤ℤ one)
rate-bounds n h = (omega arith, omega arith)

module _ ⦃o : DecimalOps⦄ ⦃ex : IsExact⦄ ⦃signs : HasSigns⦄ ⦃rates : HasRates⦄
    (registry : MarketPairRegistry) where
  simulate_at-solvent :
      (ids : Key × Key) (x : OrderIntent) (now : ℕ) (l : Ledger) (p : Option Decimal)
      → HasFairFees registry
      → nought ≤ℤ x.size
      → OnSome (λ p. nought ≤ℤ p) p
      → nought ≤ℤ l.cash.available
      → nought ≤ℤ (simulate_at registry ids x now l p).cash.available
  simulate_at-solvent ids x now l none r s on_none h = h
  simulate_at-solvent ids x now l (some p) r s (on_some q) h =
      let n = mul p x.size in
      let rate = rate-bounds (fee_rate_of registry x.token_id) (r x.token_id) in
      let n_nonneg = signs.mul_nonneg p x.size q s in
      let fee = paper_fee registry x p in
      let r4 = dec (fee_rate_of registry x.token_id) 4 in
      filled_at-solvent ids x p fee now l _ h (
        prepared-Affords x.side n fee l (signs.mul_nonneg n r4 n_nonneg rate.0)
          (rates.mul_at_most n r4 n_nonneg rate.1) h)

-- Whatever a price text of a book reads, it is not negative.
abbrev pub ReadsPrices : (Key → Option Decimal) → Type 0
ReadsPrices parse = (k : Key) → OnSome (λ p. nought ≤ℤ p) (parse k)

module _ (parse : Key → Option Decimal) (reads : ReadsPrices parse) where
  first_price-nonneg : (ls : List PriceLevel) → OnSome (λ p. nought ≤ℤ p) (first_price parse ls)
  first_price-nonneg [] = on_none
  first_price-nonneg (l ∷ ls) = reads l.price

  counterside-nonneg :
      (books : Books) (side : Side) (token_id : Key)
      → OnSome (λ p. nought ≤ℤ p) (counterside parse books side token_id)
  unfolding best_bid best_ask
  counterside-nonneg books buy token_id = elim (Option-cases (lookup token_id books)) [
    | inl e ↦ rw (e, best_ask) on_none
    | inr (book, e) ↦ rw (e, best_ask) (first_price-nonneg book.asks)
  ]
  counterside-nonneg books sell token_id = elim (Option-cases (lookup token_id books)) [
    | inl e ↦ rw (e, best_bid) on_none
    | inr (book, e) ↦ rw (e, best_bid) (first_price-nonneg book.bids)
  ]

  within_limit-nonneg :
      (side : Side) (limit : Decimal) (p : Option Decimal)
      → OnSome (λ p. nought ≤ℤ p) p
      → OnSome (λ p. nought ≤ℤ p) (within_limit parse side limit p)
  within_limit-nonneg side limit none on_none = on_none
  within_limit-nonneg buy limit (some p) (on_some h) = elim (Bool-cases (le p limit)) [
    | inl e ↦ rw e (on_some h)
    | inr e ↦ rw e on_none
  ]
  within_limit-nonneg sell limit (some p) (on_some h) = elim (Bool-cases (le limit p)) [
    | inl e ↦ rw e (on_some h)
    | inr e ↦ rw e on_none
  ]

  module _ ⦃o : DecimalOps⦄ ⦃ex : IsExact⦄ ⦃signs : HasSigns⦄ ⦃rates : HasRates⦄ (books : Books)
      (registry : MarketPairRegistry) (now : ℕ) where
    -- From cash that is not negative, paper trading never makes the available cash negative,
    -- whatever the books and the intents, where no price reads negative, no size is negative, no
    -- fee rate is above 100 percent, sums and differences are exact, products have the sign of
    -- their factors, and an amount times a rate of at most one is at most the amount.
    pub simulate_paper_fills-solvent :
        (drawn : ℕ → Key × Key) (l : Ledger) (xs : List OrderIntent)
        → HasFairFees registry
        → All (λ (x : OrderIntent). nought ≤ℤ x.size) xs
        → nought ≤ℤ l.cash.available
        → nought ≤ℤ (simulate_paper_fills parse books registry now drawn l xs).cash.available
    unfolding simulate_paper_fills fill_price_of
    simulate_paper_fills-solvent drawn l [] fair sizes h = h
    simulate_paper_fills-solvent drawn l (x ∷ xs) fair sizes h =
        simulate_paper_fills-solvent (λ n. drawn (suc n)) _ xs fair sizes.1
          (simulate_at-solvent registry (drawn 0) x now l _ fair sizes.0
            (within_limit-nonneg x.side x.price _ (counterside-nonneg books x.side x.token_id)) h)
