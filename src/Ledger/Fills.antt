-- ===== src/Ledger/Fills.antt =====
-- What `process_fill` and `apply_server_cancel` of the ledger do.
use poly_bot.Prelude.{
  ℕ, ◌-◌, ◌≤◌, ◌≡◌, refl, ◌∙◌, true, false, List, [], ◌∷◌, ◌++◌, arith, All, contains, length,
  length-append, length-drop, ==_refl,
}
use poly_bot.Decimal.{Decimal, nought, max, min, ◌≤ℤ◌, DecimalOps, IsExact, exact, add, sub, mul}
use poly_bot.Types.{Side, buy, sell}
use poly_bot.Ledger.{
  Ledger, max_fills, drop_oldest, store_fill, resolve, settle, settle_fill, process_fill,
}
use poly_bot.Ledger.Cash
use poly_bot.Ledger.Cash.{CashBalance}
use poly_bot.Ledger.Positions
use poly_bot.Ledger.Positions.{Fill}
use poly_bot.Ledger.Cash.Conservation.{positive}

length-drop_oldest : (fills : List Fill) → length (drop_oldest fills) ≡ length fills - 5000
unfolding drop_oldest
length-drop_oldest fills = length-drop 5000 fills

length-store_fill :
    (fills : List Fill) (f : Fill)
    → length fills ≤ max_fills
    → length (store_fill fills f) ≤ max_fills
unfolding store_fill
length-store_fill fills f h =
    ground (arith, length-append fills (f ∷ []), length-drop_oldest (fills ++ f ∷ []))

module _ ⦃o : DecimalOps⦄ where
  -- Fills in the order in which they arrive.
  unfoldable pub process_all : Ledger → List Fill → ℕ → Ledger
  process_all l [] now = l
  process_all l (f ∷ fs) now = process_all (process_fill l f now) fs now

  abbrev IsSeen : Ledger → Fill → Type 0
  IsSeen l f = contains f.fill_id l.seen_fill_ids ≡ true

  process_fill_seen : (l : Ledger) (f : Fill) (now : ℕ) → IsSeen l f → process_fill l f now ≡ l
  unfolding process_fill
  process_fill_seen l f now h = rw h

  process_fill-IsSeen :
      (l : Ledger) (f g : Fill) (now : ℕ) → IsSeen l g → IsSeen (process_fill l f now) g
  unfolding process_fill
  process_fill-IsSeen l f g now h = ground arith

  process_fill_sees : (l : Ledger) (f : Fill) (now : ℕ) → IsSeen (process_fill l f now) f
  unfolding process_fill
  process_fill_sees l f now = ground (arith, ==_refl f.fill_id)

  process_all-IsSeen :
      (l : Ledger) (fs : List Fill) (g : Fill) (now : ℕ)
      → IsSeen l g
      → IsSeen (process_all l fs now) g
  unfolding process_all
  process_all-IsSeen l [] g now h = h
  process_all-IsSeen l (f ∷ fs) g now h =
      process_all-IsSeen (process_fill l f now) fs g now (process_fill-IsSeen l f g now h)

  process_all_sees :
      (l : Ledger) (fs : List Fill) (now : ℕ) → All (IsSeen (process_all l fs now)) fs
  unfolding process_all
  process_all_sees l [] now = tt
  process_all_sees l (f ∷ fs) now = (
    process_all-IsSeen (process_fill l f now) fs f now (process_fill_sees l f now),
    process_all_sees (process_fill l f now) fs now,
  )

  process_all_seen :
      (l : Ledger) (fs : List Fill) (now : ℕ) → All (IsSeen l) fs → process_all l fs now ≡ l
  unfolding process_all
  process_all_seen l [] now h = refl
  process_all_seen l (f ∷ fs) now h =
      rw (process_fill_seen l f now h.0) (process_all_seen l fs now h.1)

  process_all-append :
      (l : Ledger) (fs gs : List Fill) (now : ℕ)
      → process_all l (fs ++ gs) now ≡ process_all (process_all l fs now) gs now
  unfolding process_all
  process_all-append l [] gs now = refl
  process_all-append l (f ∷ fs) gs now = process_all-append (process_fill l f now) fs gs now

  -- Processing the fills of a session twice leaves the ledger that processing them once leaves.
  pub replay_idempotent :
      (l : Ledger) (fs : List Fill) (now : ℕ) → process_all l (fs ++ fs) now ≡ process_all l fs now
  replay_idempotent l fs now =
      process_all-append l fs fs now
      ∙ process_all_seen (process_all l fs now) fs now (process_all_sees l fs now)

  fills-process_fill :
      (l : Ledger) (f : Fill) (now : ℕ)
      → length l.fills ≤ max_fills
      → length (process_fill l f now).fills ≤ max_fills
  unfolding process_fill
  fills-process_fill l f now h = ground (arith, length-store_fill l.fills (resolve l f) h)

  -- However many fills arrive, the history never holds more than its cap.
  pub fills_bounded :
      (l : Ledger) (fs : List Fill) (now : ℕ)
      → length l.fills ≤ max_fills
      → length (process_all l fs now).fills ≤ max_fills
  unfolding process_all
  fills_bounded l [] now h = h
  fills_bounded l (f ∷ fs) now h =
      fills_bounded (process_fill l f now) fs now (fills-process_fill l f now h)

-- The total that settling a notional leaves: a sell adds it, and a buy takes it, but never more than
-- what is reserved.
abbrev pub settled_total : ⦃o : DecimalOps⦄ → Side → CashBalance → Decimal → Decimal
settled_total buy c value = sub (Cash.total c) (min (positive value) (max c.reserved nought))
settled_total sell c value = add (Cash.total c) (positive value)

module _ ⦃o : DecimalOps⦄ ⦃ex : IsExact⦄ where
  total-settle :
      (side : Side) (c : CashBalance) (value fee : Decimal)
      → nought ≤ℤ c.reserved
      → Cash.total (Cash.deduct_fee (settle side c value) fee)
        ≡ sub (settled_total side c value) (positive fee)
  unfolding Cash.total Cash.settle_buy Cash.settle_sell Cash.deduct_fee
  total-settle buy c value fee h = grind exact
  total-settle sell c value fee h = grind exact

  -- A fill that was not seen settles its notional by side, a buy from what is reserved at most, and
  -- takes its fee, and nothing else moves the total, from a reserved balance that is not negative
  -- and where sums and differences are exact.
  pub total-process_fill :
      (l : Ledger) (f : Fill) (now : ℕ)
      → contains f.fill_id l.seen_fill_ids ≡ false
      → nought ≤ℤ l.cash.reserved
      → Cash.total (process_fill l f now).cash
        ≡ sub (settled_total f.side l.cash (Positions.fill_notional f)) (positive f.fee)
  unfolding process_fill settle_fill resolve Positions.fill_notional
  total-process_fill l f now new h =
      rw new (total-settle f.side l.cash (mul f.price f.size) f.fee h)
