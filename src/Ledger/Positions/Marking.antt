-- ===== src/Ledger/Positions/Marking.antt =====
-- Marking to market: the block of `heartbeat` in src/orchestrator/heartbeat.rs that gives each open
-- position the mid price of its token, and what it does to every position.
use poly_bot.Prelude.{
  ℕ, ◌≡◌, refl, Bool, false, not, Option, none, some, List, [], ◌∷◌, arith, if◌then◌else◌, ◌==◌,
  map_option, Option-cases, inl, inr,
}
use poly_bot.Prelude.Dict.{adjust, lookup, HasDistinctKeys, lookup-adjust}
use poly_bot.Decimal.{Decimal, DecimalOps}
use poly_bot.Types.{Key}
use poly_bot.Ledger.Positions.{
  Position, Positions, is_flat, all_positions, mark_to_market, mark_all_to_market,
}

-- The prices found for a list of positions; `mid_price` is the order book's.
pub priced : (Key → Option Decimal) → List Position → List (Key × Decimal)
priced mid_price [] = []
priced mid_price (p ∷ ps) =
    let rest = priced mid_price ps in
    elim (mid_price p.token_id) [ none ↦ rest | some mid ↦ (p.token_id, mid) ∷ rest ]

-- Each position stands under its own token.
abbrev pub AreKeyed : Positions → Type 0
AreKeyed [] = Unit
AreKeyed ((k, p) ∷ ps) = (p.token_id ≡ k) × AreKeyed ps

module _ ⦃o : DecimalOps⦄ where
  unfoldable pub heartbeat_mark : (Key → Option Decimal) → Positions → ℕ → Positions
  unfolding priced
  heartbeat_mark mid_price ps now = mark_all_to_market ps (priced mid_price (all_positions ps)) now

  -- What one position should become: marked if it is open and its token has a price.
  abbrev pub marked : Option Decimal → ℕ → Position → Position
  marked none now p = p
  marked (some mid) now p = if is_flat p then p else mark_to_market mid now p

  marks : Key → List (Key × Decimal) → ℕ → Position → Position
  marks j [] now p = p
  marks j ((k, mid) ∷ prices) now p =
      marks j prices now (if k == j then mark_to_market mid now p else p)

  lookup-mark_all_to_market :
      (ps : Positions) (prices : List (Key × Decimal)) (now : ℕ) (j : Key)
      → lookup j (mark_all_to_market ps prices now) ≡ map_option (marks j prices now) (lookup j ps)
  unfolding mark_all_to_market marks
  lookup-mark_all_to_market ps [] now j = ground arith
  lookup-mark_all_to_market ps ((k, mid) ∷ prices) now j = ground (
    arith,
    lookup-mark_all_to_market (adjust k (mark_to_market mid now) ps) prices now j,
    lookup-adjust k j (mark_to_market mid now) ps,
  )

  -- The prices that a list of positions gives to a token which it does not hold open.
  abbrev open_at : Key → Positions → Bool
  open_at j ps = elim (lookup j ps) [ none ↦ false | some p ↦ not (is_flat p) ]

  abbrev marked_if_open : (Key → Option Decimal) → Positions → ℕ → Key → Position → Position
  marked_if_open mid_price ps now j p =
      if open_at j ps
      then elim (mid_price j) [ none ↦ p | some mid ↦ mark_to_market mid now p ]
      else p

  marks-priced_step :
      (mid_price : Key → Option Decimal) (ps : Positions) (now : ℕ) (j i : Key) (q p : Position)
      → ((r : Position)
          → marks j (priced mid_price (all_positions ps)) now r
            ≡ marked_if_open mid_price ps now j r)
      → lookup i ps ≡ none
      → q.token_id ≡ i
      → marks j (priced mid_price (all_positions ((i, q) ∷ ps))) now p
        ≡ marked_if_open mid_price ((i, q) ∷ ps) now j p
  unfolding marks priced all_positions
  marks-priced_step mid_price ps now j i q p ih d k = elim (Option-cases (mid_price q.token_id)) [
    | inl no_price ↦ ground (arith, ih p)
    | inr (mid, e) ↦ ground (arith, ih p, ih (mark_to_market mid now p))
  ]

  marks-priced :
      (mid_price : Key → Option Decimal) (ps : Positions) (now : ℕ) (j : Key) (p : Position)
      → HasDistinctKeys ps
      → AreKeyed ps
      → marks j (priced mid_price (all_positions ps)) now p ≡ marked_if_open mid_price ps now j p
  marks-priced mid_price [] now j p d k = unfold marks priced all_positions in refl
  marks-priced mid_price ((i, q) ∷ ps) now j p d k =
      marks-priced_step mid_price ps now j i q p (λ r. marks-priced mid_price ps now j r d.1 k.1)
        d.0 k.0

  -- A heartbeat marks each open position at the mid price of its token, if there is one, and leaves
  -- every other position as it was, where each position stands once under its own token.
  pub lookup-heartbeat_mark :
      (mid_price : Key → Option Decimal) (ps : Positions) (now : ℕ) (j : Key)
      → HasDistinctKeys ps
      → AreKeyed ps
      → lookup j (heartbeat_mark mid_price ps now)
        ≡ map_option (marked (mid_price j) now) (lookup j ps)
  unfolding heartbeat_mark
  lookup-heartbeat_mark mid_price ps now j d k = elim (Option-cases (lookup j ps)) [
    | inl missing ↦
        ground (arith, lookup-mark_all_to_market ps (priced mid_price (all_positions ps)) now j)
    | inr (p, found) ↦ ground (
      arith,
      lookup-mark_all_to_market ps (priced mid_price (all_positions ps)) now j,
      marks-priced mid_price ps now j p d k,
    )
  ]
