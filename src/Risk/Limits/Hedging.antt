-- ===== src/Risk/Limits/Hedging.antt =====
-- The unhedged exposure that `check_all` holds against its limit.
use poly_bot.Prelude.{
  ◌≡◌, refl, ◌∙◌, Bool, true, false, Option, none, some, List, [], ◌∷◌, arith, All, Option-cases,
  inl, inr,
}
use poly_bot.Decimal.{Decimal, nought, eq, abs, DecimalOps, IsExact, add, sub, eq_of_parts}
use poly_bot.Types.{Key}
use poly_bot.Ledger.{Ledger, snapshot}
use poly_bot.Ledger.Positions.{Position}
use poly_bot.Strategy.MarketPair.{MarketPair, MarketPairRegistry, get_by_token, complement}
use poly_bot.Risk.Limits.{
  cost_of, complement_cost, unhedged_step, unhedged_loop, calculate_unhedged_exposure,
}

module _ ⦃o : DecimalOps⦄ where
  -- The position's token is registered, and the complement is held at the same cost.
  abbrev pub is_matched : List Position → Position → Option MarketPair → Bool
  is_matched ps p none = false
  is_matched ps p (some pair) = eq (cost_of p) (complement_cost ps (complement pair p.token_id))

  abbrev pub AreHedged : MarketPairRegistry → (all rest : List Position) → Type 0
  AreHedged registry ps rest =
      All (λ (p : Position). is_matched ps p (get_by_token registry p.token_id) ≡ true) rest

module _ ⦃o : DecimalOps⦄ ⦃ex : IsExact⦄ where
  add_matched : (total a b : Decimal) → eq a b ≡ true → add total (abs (sub a b)) ≡ total
  add_matched total a b h = ground (
    arith,
    ex.sub_parts a b,
    ex.add_parts total (abs (sub a b)),
    eq_of_parts (add total (abs (sub a b))) total,
  )

  matched_step :
      (registry : MarketPairRegistry) (ps : List Position) (p : Position) (acc : Decimal × List Key)
      → is_matched ps p (get_by_token registry p.token_id) ≡ true
      → (unhedged_step registry ps p acc).0 ≡ acc.0
  unfolding unhedged_step
  matched_step registry ps p (total, seen) h =
      elim (Option-cases (get_by_token registry p.token_id)) [
        | inl missing ↦ ground arith
        | inr (pair, found) ↦
            ground (
              arith,
              add_matched total (cost_of p) (complement_cost ps (complement pair p.token_id)),
            )
      ]

  matched_loop :
      (registry : MarketPairRegistry) (ps rest : List Position) (acc : Decimal × List Key)
      → AreHedged registry ps rest
      → (unhedged_loop registry ps rest acc).0 ≡ acc.0
  unfolding unhedged_loop
  matched_loop registry ps [] acc h = refl
  matched_loop registry ps (p ∷ rest) acc h =
      matched_loop registry ps rest (unhedged_step registry ps p acc) h.1
      ∙ matched_step registry ps p acc h.0

  -- A ledger in which each open position is of a registered token whose complement is held at the
  -- same cost has no unhedged exposure, where sums and differences are exact.
  pub hedged_lem :
      (l : Ledger) (registry : MarketPairRegistry)
      → AreHedged registry (snapshot l).positions (snapshot l).positions
      → calculate_unhedged_exposure l (some registry) ≡ nought
  unfolding calculate_unhedged_exposure
  hedged_lem l registry h =
      matched_loop registry (snapshot l).positions (snapshot l).positions (nought, []) h
