-- ===== src/Ledger/Positions/Accounting.antt =====
-- What fills make of a position, one by one and over any sequence.
use poly_bot.Prelude.{
  ℕ, ◌≡◌, ◌≢◌, refl, true, not, ◌||◌, List, [], ◌∷◌, arith, if◌then◌else◌, ◌==◌, ap, ◌∙◌,
}
use poly_bot.Prelude.Dict.{lookup-insert}
use poly_bot.Decimal.{
  Decimal, nought, lt, eq, abs, min, signum, DecimalOps, IsExact, HasSigns, add, sub, mul,
  eq_of_parts, ◌≤ℤ◌, ◌<ℤ◌,
}
use poly_bot.Types.{Key, sell}
use poly_bot.Ledger.Positions.{
  Position, Positions, Fill, is_flat, signed_size, get_position, update_position, apply_fill,
  same_direction,
}

module _ ⦃o : DecimalOps⦄ where
  -- A sequence of confirmed fills.
  unfoldable pub apply_fills : Positions → List Fill → ℕ → Positions
  apply_fills ps [] now = ps
  apply_fills ps (f ∷ fs) now = apply_fills (apply_fill ps f now) fs now

  -- The sum of a figure over the fills of one token, from a starting value.
  unfoldable pub tally : (Fill → Decimal) → Key → Decimal → List Fill → Decimal
  tally figure token_id acc [] = acc
  tally figure token_id acc (f ∷ fs) =
      tally figure token_id (if f.token_id == token_id then add acc (figure f) else acc) fs

  -- A fill that opens a position, or goes against it.
  abbrev pub IsNotExtending : Fill → Position → Type 0
  IsNotExtending f p =
      (eq p.shares nought || not (same_direction (lt nought p.shares) (lt nought (signed_size f))))
      ≡ true

  abbrev pub IsAtCost : Position → Type 0
  IsAtCost p = p.cost_basis ≡ mul p.avg_cost (abs p.shares)

module _ ⦃o : DecimalOps⦄ ⦃ex : IsExact⦄ where
  shares-update_position :
      (f : Fill) (p : Position) → (update_position f p).shares ≡ add p.shares (signed_size f)
  unfolding update_position
  shares-update_position f p = ground (arith, eq_of_parts nought (add p.shares (signed_size f)))

  fees-update_position :
      (f : Fill) (p : Position)
      → ((update_position f p).total_fees ≡ add p.total_fees f.fee)
        × ((update_position f p).total_slippage_cost ≡ add p.total_slippage_cost f.slippage_cost)
        × ((update_position f p).unrealized_pnl ≡ p.unrealized_pnl)
  unfolding update_position
  fees-update_position f p = ground arith

  get_position-apply_fill :
      (ps : Positions) (f : Fill) (now : ℕ) (j : Key)
      → get_position (apply_fill ps f now) j now ≡ (
          if f.token_id == j
          then update_position f (get_position ps f.token_id now)
          else get_position ps j now)
  unfolding get_position apply_fill
  get_position-apply_fill ps f now j =
      ground
        (arith, lookup-insert f.token_id j (update_position f (get_position ps f.token_id now)) ps)

  figures-apply_fill :
      (ps : Positions) (f : Fill) (now : ℕ) (j : Key)
      → let p = get_position ps j now in
        let p' = get_position (apply_fill ps f now) j now in
        (p'.shares ≡ (if f.token_id == j then add p.shares (signed_size f) else p.shares))
        × (p'.total_fees ≡ (if f.token_id == j then add p.total_fees f.fee else p.total_fees))
        × (p'.total_slippage_cost ≡ (
            if f.token_id == j
            then add p.total_slippage_cost f.slippage_cost
            else p.total_slippage_cost))
  figures-apply_fill ps f now j = ground (
    arith,
    get_position-apply_fill ps f now j,
    shares-update_position f (get_position ps f.token_id now),
    fees-update_position f (get_position ps f.token_id now),
  )

  -- After any fills the shares of a token are those before, with the size of every buy of it added
  -- and that of every sell taken off; its fees and its slippage cost are those before and all that
  -- its fills carry, where sums and differences are exact.
  pub apply_fills-tally :
      (ps : Positions) (fs : List Fill) (now : ℕ) (j : Key)
      → let p = get_position ps j now in
        let p' = get_position (apply_fills ps fs now) j now in
        (p'.shares ≡ tally signed_size j p.shares fs)
        × (p'.total_fees ≡ tally (λ f. f.fee) j p.total_fees fs)
        × (p'.total_slippage_cost ≡ tally (λ f. f.slippage_cost) j p.total_slippage_cost fs)
  unfolding apply_fills tally
  apply_fills-tally ps [] now j = (refl, refl, refl)
  apply_fills-tally ps (f ∷ fs) now j =
      let (h, fee, slip) = apply_fills-tally (apply_fill ps f now) fs now j in
      let (h', fee', slip') = figures-apply_fill ps f now j in
      (
        h ∙ ap (λ a. tally signed_size j a fs) h',
        fee ∙ ap (λ a. tally (λ g. g.fee) j a fs) fee',
        slip ∙ ap (λ a. tally (λ g. g.slippage_cost) j a fs) slip',
      )

  -- A fill that does not extend the position leaves its cost basis at the average cost of the
  -- shares that remain, long or short, where sums and differences are exact and zero times anything
  -- is zero.
  pub update_position-IsAtCost :
      ⦃signs : HasSigns⦄ (f : Fill) (p : Position)
      → IsNotExtending f p
      → IsAtCost (update_position f p)
  unfolding update_position
  update_position-IsAtCost ⦃signs⦄ f p h = ground (
    arith,
    signs.mul_zero_left nought (abs nought),
    eq_of_parts (sub (abs (signed_size f)) (abs p.shares)) (abs (add p.shares (signed_size f))),
    ex.add_parts p.shares (signed_size f),
    ex.sub_parts (abs (signed_size f)) (abs p.shares),
  )

  -- A sell of a positive size on a long position, at or above its average cost, does not lower the
  -- realized profit, where sums and differences are exact and products have the sign of their
  -- factors.
  pub sell_above_cost :
      ⦃signs : HasSigns⦄ (f : Fill) (p : Position)
      → f.side ≡ sell
      → nought <ℤ f.size
      → nought <ℤ p.shares
      → p.avg_cost ≤ℤ f.price
      → p.realized_pnl ≤ℤ (update_position f p).realized_pnl
  unfolding update_position signed_size
  sell_above_cost ⦃signs⦄ f p side size long above =
      let closing : Decimal = min (abs (signed_size f)) (abs p.shares) in
      let gain : Decimal = mul (sub f.price p.avg_cost) closing in
      ground (
        arith,
        ex.sub_parts f.price p.avg_cost,
        signs.mul_nonneg (sub f.price p.avg_cost) closing,
        signs.mul_nonneg gain (signum p.shares),
        ex.add_parts p.realized_pnl (mul gain (signum p.shares)),
      )

  -- A fill that closes a position leaves it flat, and leaves its unrealized profit as last marked,
  -- where sums and differences are exact.
  pub close_keeps_unrealized :
      (f : Fill) (p : Position)
      → p.shares ≢ nought
      → add p.shares (signed_size f) ≡ nought
      → (is_flat (update_position f p) ≡ true)
        × ((update_position f p).unrealized_pnl ≡ p.unrealized_pnl)
  unfolding update_position is_flat
  close_keeps_unrealized f p held closes =
      ground (arith, eq_of_parts p.shares nought, ex.add_parts p.shares (signed_size f))
