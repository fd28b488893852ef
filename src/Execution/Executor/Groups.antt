-- ===== src/Execution/Executor/Groups.antt =====
-- What the unwinds of a group leave of each leg, and what they sell.
use poly_bot.Prelude.{
  ℕ, ◌≡◌, refl, true, none, some, List, [], ◌∷◌, foldl, All, arith, Bool-cases, inl, inr,
}
use poly_bot.Decimal.{
  Decimal, nought, dec, le, min, DecimalOps, IsExact, HasLots, eq_of_parts, sub, mul, ◌≤ℤ◌, ◌<ℤ◌,
  sub_exact, add, add_exact, neg, pos, negsuc, pos_part, neg_part,
}
use poly_bot.Types.{Key, Side, buy, sell}
use poly_bot.State.OrderBook.{decimal_max}
use poly_bot.Strategy.Traits.{OrderIntent, new_intent, from_intent}
use poly_bot.Execution.Policy.{TakerPolicy, taker_params, round_up_to_tick}
use poly_bot.Execution.Executor.{
  ExecutionResult, order_for, min_filled, unwind_of, unwind_intent, opposite, limit_price,
}
use poly_bot.Ledger.Positions.{signed_by}
use poly_bot.Execution.Executor.Quantize.{lot_of}
use poly_bot.Execution.Executor.Sizes.{quantize_bounds, lot_pos, quantize_enlarges}

least_of : Decimal → List ExecutionResult → Decimal
least_of = foldl (λ (m : Decimal) (r : ExecutionResult). min m r.filled_size)

least-le : (m : Decimal) (rs : List ExecutionResult) → least_of m rs ≤ℤ m
unfolding least_of
least-le m [] = omega arith
least-le m (r ∷ rs) = ground (arith, least-le (min m r.filled_size) rs)

least-All :
    (m : Decimal) (rs : List ExecutionResult)
    → All (λ (r : ExecutionResult). least_of m rs ≤ℤ r.filled_size) rs
unfolding least_of
least-All m [] = tt
least-All m (r ∷ rs) =
    (ground (arith, least-le (min m r.filled_size) rs), least-All (min m r.filled_size) rs)

-- Within `l` of each other.
abbrev pub AreClose : ⦃o : DecimalOps⦄ → (a b l : Decimal) → Type 0
AreClose a b l = (a ≤ℤ add b l) × (b ≤ℤ add a l)

neg_parts : (a : Decimal) → (pos_part (neg a) ≡ neg_part a) × (neg_part (neg a) ≡ pos_part a)
neg_parts (pos ℕ.zero) = (refl, refl)
neg_parts (pos (ℕ.suc n)) = (refl, refl)
neg_parts (negsuc n) = (refl, refl)

module _ ⦃o : DecimalOps⦄ ⦃ex : IsExact⦄ where
  no_excess : (a b : Decimal) → b ≤ℤ a → le (sub a b) nought ≡ true → a ≡ b
  no_excess a b h k = eq_of_parts a b (ground (arith, sub_exact a b))

  self_near : (a l : Decimal) → nought <ℤ l → AreClose a a l
  self_near a l p = (omega (arith, add_exact a l), omega (arith, add_exact a l))

  -- the arithmetic of a bought leg, and of a sold one
  sold_near :
      (f m q l : Decimal) → sub f m <ℤ add q l → q ≤ℤ add (sub f m) l → AreClose (add f (neg q)) m l
  sold_near f m q l h k =
      let (np, nn) = neg_parts q in
      (
        omega (
          arith,
          sub_exact f m,
          add_exact q l,
          add_exact (sub f m) l,
          add_exact f (neg q),
          add_exact m l,
          add_exact (add f (neg q)) l,
          np,
          nn,
        ),
        omega (
          arith,
          sub_exact f m,
          add_exact q l,
          add_exact (sub f m) l,
          add_exact f (neg q),
          add_exact m l,
          add_exact (add f (neg q)) l,
          np,
          nn,
        ),
      )

  bought_near :
      (f m q l : Decimal)
      → sub f m <ℤ add q l
      → q ≤ℤ add (sub f m) l
      → AreClose (add (neg f) q) (neg m) l
  bought_near f m q l h k =
      let (fp, fn) = neg_parts f in
      let (mp, mn) = neg_parts m in
      (
        omega (
          arith,
          sub_exact f m,
          add_exact q l,
          add_exact (sub f m) l,
          add_exact (neg f) q,
          add_exact (neg m) l,
          add_exact (add (neg f) q) l,
          fp,
          fn,
          mp,
          mn,
        ),
        omega (
          arith,
          sub_exact f m,
          add_exact q l,
          add_exact (sub f m) l,
          add_exact (neg f) q,
          add_exact (neg m) l,
          add_exact (add (neg f) q) l,
          fp,
          fn,
          mp,
          mn,
        ),
      )

  traded_near :
      (side : Side) (f m q l : Decimal)
      → sub f m <ℤ add q l
      → q ≤ℤ add (sub f m) l
      → AreClose (add (signed_by side f) (signed_by (opposite side) q)) (signed_by side m) l
  traded_near buy f m q l h k = sold_near f m q l h k
  traded_near sell f m q l h k = bought_near f m q l h k

module _ ⦃o : DecimalOps⦄ (unwind_name : Key → Key) where
  -- What a leg holds of its token, bought shares counted up and sold ones down, once the order that
  -- unwinds it, if there is one, is filled whole.
  abbrev pub held_after :
      TakerPolicy → (least : Decimal) → (now later : ℕ) → OrderIntent → ExecutionResult → Decimal
  held_after policy least now later original r = elim (unwind_of unwind_name least now r original) [
    | none ↦ signed_by original.side r.filled_size
    | some x ↦
        let sent = order_for (taker_params policy) x later in
        add (signed_by original.side r.filled_size) (signed_by sent.side sent.size)
  ]

  abbrev pub unwind_lot : OrderIntent → Decimal
  unwind_lot original = lot_of (limit_price (opposite original.side))

  module _ ⦃ex : IsExact⦄ ⦃lots : HasLots⦄ where
    held_near :
        (policy : TakerPolicy) (least : Decimal) (now later : ℕ) (x : OrderIntent)
        (r : ExecutionResult)
        → least ≤ℤ r.filled_size
        → AreClose (held_after policy least now later x r) (signed_by x.side least) (unwind_lot x)
    unfolding unwind_of unwind_intent new_intent from_intent taker_params round_up_to_tick
    held_near policy least now later x r h =
        elim (Bool-cases (le (sub r.filled_size least) nought)) [
          | inl balanced ↦
              rw (balanced, held_after, no_excess r.filled_size least h balanced)
                (self_near (signed_by x.side least) (unwind_lot x)
                  (lot_pos (limit_price (opposite x.side))))
          | inr excess ↦
              let bounds =
                quantize_bounds (limit_price (opposite x.side)) (sub r.filled_size least)
                  (ground arith) in
              rw (excess, held_after)
                (traded_near x.side r.filled_size least _ (unwind_lot x) bounds.0 bounds.1)
        ]

    All-AreClose :
        (policy : TakerPolicy) (least : Decimal) (now later : ℕ) (x : OrderIntent)
        (rs : List ExecutionResult)
        → All (λ (r : ExecutionResult). least ≤ℤ r.filled_size) rs
        → All
            (λ r.
              AreClose
                (held_after policy least now later x r)
                (signed_by x.side least)
                (unwind_lot x))
            rs
    All-AreClose policy least now later x [] h = tt
    All-AreClose policy least now later x (r ∷ rs) h =
        (held_near policy least now later x r h.0, All-AreClose policy least now later x rs h.1)

    -- Once the order that the taker policy sends to unwind a leg of a group is filled whole, what
    -- the leg holds of its token, bought shares counted up and sold ones down, is within one lot of
    -- what it would hold with only the least size filled, and so it is for a leg that needs no
    -- unwind, where sums and differences are exact and whole lots are counted correctly.
    pub unwinds_balance :
        (policy : TakerPolicy) (results : List ExecutionResult) (now later : ℕ)
        (original : OrderIntent)
        → All
            (λ r.
              AreClose
                (held_after policy (min_filled results) now later original r)
                (signed_by original.side (min_filled results))
                (unwind_lot original))
            results
    unfolding min_filled least_of
    unwinds_balance policy results now later original =
        All-AreClose policy (min_filled results) now later original results
          (least-All decimal_max results)

    -- What is sold by the taker policy to unwind a bought leg is more than the excess, when this is
    -- positive and worth less than a dollar at the limit price of one cent, where sums and
    -- differences are exact and whole lots are counted correctly: the size of the order is
    -- enlarged.
    pub unwind_oversells :
        (policy : TakerPolicy) (original : OrderIntent) (excess : Decimal) (now later : ℕ)
        → original.side ≡ buy
        → nought <ℤ excess
        → mul (dec 1 2) excess <ℤ dec 1 0
        → excess
          <ℤ (order_for
              (taker_params policy)
              (unwind_intent unwind_name original excess now)
              later).size
    unfolding unwind_intent new_intent from_intent taker_params round_up_to_tick
    unwind_oversells policy original excess now later s h k =
        rw s (quantize_enlarges (dec 1 2) excess (omega arith) h k)
