-- ===== src/Ledger/Cash/Conservation.antt =====
-- What the methods of `CashBalance` do to the two balances and to their total, over any sequence.
use poly_bot.Prelude.{
  ◌≡◌, Bool-cases, inl, inr, Option, none, some, List, [], ◌∷◌, All, if◌then◌else◌,
}
use poly_bot.Decimal.{Decimal, nought, ◌≤ℤ◌, le, lt, max, abs, DecimalOps, IsExact, add, sub, exact}
use poly_bot.Types.{Result, ok, err}
use poly_bot.Ledger.Cash.{
  CashBalance, total, reserve, release, settle_buy, settle_sell, deposit, withdraw, deduct_fee,
  sync_from_exchange, reset,
}

-- A call of a method that updates the balance, which is each one.
pub data CashOp : Type 0 where
  reserve_op release_op settle_buy_op settle_sell_op deposit_op withdraw_op fee_op reset_op :
      Decimal → CashOp
  sync_op : (exchange_total threshold : Decimal) → CashOp

abbrev pub returned : Result Decimal → Decimal
returned (ok x) = x
returned (err _) = nought

abbrev pub drift_of : Option Decimal → Decimal
drift_of (some drift) = drift
drift_of none = nought

abbrev pub positive : Decimal → Decimal
positive x = if le x nought then nought else x

-- No locked cash is negative.
abbrev pub IsSolvent : CashBalance → Type 0
IsSolvent c = nought ≤ℤ c.reserved

abbrev pub IsFunded : CashBalance → Type 0
IsFunded c = nought ≤ℤ c.available

-- A call other than a fee and a reset to a debt.
abbrev pub KeepsFunds : CashOp → Type 0
KeepsFunds (CashOp.fee_op _) = ⊥
KeepsFunds (CashOp.reset_op x) = nought ≤ℤ x
KeepsFunds _ = Unit

module _ ⦃o : DecimalOps⦄ where
  unfoldable pub call : CashBalance → CashOp → CashBalance
  call c (CashOp.reserve_op x) = (reserve c x).0
  call c (CashOp.release_op x) = (release c x).0
  call c (CashOp.settle_buy_op x) = (settle_buy c x).0
  call c (CashOp.settle_sell_op x) = settle_sell c x
  call c (CashOp.deposit_op x) = deposit c x
  call c (CashOp.withdraw_op x) = (withdraw c x).0
  call c (CashOp.fee_op x) = deduct_fee c x
  call c (CashOp.sync_op t w) = (sync_from_exchange c t w).0
  call c (CashOp.reset_op x) = reset c x

  -- The cash that a call reports as paid in, and as paid out; a synchronisation reports its drift,
  -- and a reset pays in what is missing to its amount.
  unfoldable pub paid_in : CashBalance → CashOp → Decimal
  paid_in c (CashOp.settle_sell_op x) = positive x
  paid_in c (CashOp.deposit_op x) = positive x
  paid_in c (CashOp.sync_op t w) = drift_of (sync_from_exchange c t w).1
  paid_in c (CashOp.reset_op x) = sub x (total c)
  paid_in c _ = nought

  unfoldable pub paid_out : CashBalance → CashOp → Decimal
  paid_out c (CashOp.settle_buy_op x) = returned (settle_buy c x).1
  paid_out c (CashOp.withdraw_op x) = returned (withdraw c x).1
  paid_out c (CashOp.fee_op x) = positive x
  paid_out c _ = nought

  unfoldable pub calls : CashBalance → List CashOp → CashBalance
  calls c [] = c
  calls c (op ∷ ops) = calls (call c op) ops

  unfoldable pub all_in : CashBalance → List CashOp → Decimal
  all_in c [] = nought
  all_in c (op ∷ ops) = add (paid_in c op) (all_in (call c op) ops)

  unfoldable pub all_out : CashBalance → List CashOp → Decimal
  all_out c [] = nought
  all_out c (op ∷ ops) = add (paid_out c op) (all_out (call c op) ops)

module _ ⦃o : DecimalOps⦄ ⦃ex : IsExact⦄ where
  total-reserve : (c : CashBalance) (x : Decimal) → total (reserve c x).0 ≡ total c
  unfolding total reserve
  total-reserve c x = grind exact

  total-release : (c : CashBalance) (x : Decimal) → total (release c x).0 ≡ total c
  unfolding total release
  total-release c x = grind exact

  moved_total :
      (c : CashBalance) (a : Decimal)
      → total (record c { available = a }) ≡ sub (add (total c) (sub a c.available)) nought
  unfolding total
  moved_total c a = grind exact

  unmoved_total : (c : CashBalance) → total c ≡ sub (add (total c) nought) nought
  unmoved_total c = grind exact

  total-sync_from_exchange :
      (c : CashBalance) (t w : Decimal)
      → total (sync_from_exchange c t w).0
        ≡ sub (add (total c) (drift_of (sync_from_exchange c t w).1)) nought
  unfolding sync_from_exchange
  total-sync_from_exchange c t w =
      let a = max (sub t c.reserved) nought in
      elim (Bool-cases (lt w (abs (sub a c.available)))) [
        | inl drifted ↦ rw drifted (moved_total c a)
        | inr close ↦ rw close (unmoved_total c)
      ]

  total-call :
      (c : CashBalance) (op : CashOp)
      → total (call c op) ≡ sub (add (total c) (paid_in c op)) (paid_out c op)
  unfolding call paid_in paid_out
  total-call c (CashOp.reserve_op x) = rw total-reserve (grind exact)
  total-call c (CashOp.release_op x) = rw total-release (grind exact)
  total-call c (CashOp.settle_buy_op x) = unfold total settle_buy in grind exact
  total-call c (CashOp.settle_sell_op x) = unfold total settle_sell in grind exact
  total-call c (CashOp.deposit_op x) = unfold total deposit in grind exact
  total-call c (CashOp.withdraw_op x) = unfold total withdraw in grind exact
  total-call c (CashOp.fee_op x) = unfold total deduct_fee in grind exact
  total-call c (CashOp.sync_op t w) = total-sync_from_exchange c t w
  total-call c (CashOp.reset_op x) = unfold total reset in grind exact

  -- Over any calls of the methods that update the balance the total moves by exactly what they
  -- report, where sums and differences are exact: a reservation and its release move nothing, a
  -- settlement or a withdrawal takes the amount that it returns, a synchronisation adds the drift
  -- that it returns, and a reset brings the total to its amount.
  pub total-calls :
      (c : CashBalance) (ops : List CashOp)
      → total (calls c ops) ≡ sub (add (total c) (all_in c ops)) (all_out c ops)
  unfolding calls all_in all_out
  total-calls c [] = grind exact
  total-calls c (op ∷ ops) = rw (total-calls (call c op) ops, total-call c op) (grind exact)

  call-IsSolvent : (c : CashBalance) (op : CashOp) → IsSolvent c → IsSolvent (call c op)
  unfolding call reserve release settle_buy settle_sell deposit withdraw deduct_fee
      sync_from_exchange reset
  call-IsSolvent c (CashOp.reserve_op x) h = grind exact
  call-IsSolvent c (CashOp.release_op x) h = grind exact
  call-IsSolvent c (CashOp.settle_buy_op x) h = grind exact
  call-IsSolvent c op h = grind exact

  call-IsFunded :
      (c : CashBalance) (op : CashOp)
      → KeepsFunds op
      → IsSolvent c
      → IsFunded c
      → IsFunded (call c op)
  unfolding call reserve release settle_buy settle_sell deposit withdraw deduct_fee
      sync_from_exchange reset
  call-IsFunded c (CashOp.fee_op x) n s h = absurd n
  call-IsFunded c op n s h = grind exact

  -- From balances that are not negative, no calls without a fee or a reset to a debt make either
  -- balance negative, where sums and differences are exact.
  pub calls_nonneg :
      (c : CashBalance) (ops : List CashOp)
      → IsSolvent c
      → IsFunded c
      → All KeepsFunds ops
      → IsSolvent (calls c ops) × IsFunded (calls c ops)
  unfolding calls
  calls_nonneg c [] s f n = (s, f)
  calls_nonneg c (op ∷ ops) s f n =
      calls_nonneg (call c op) ops (call-IsSolvent c op s) (call-IsFunded c op n.0 s f) n.1

  -- The reserved balance never becomes negative, whatever is called.
  pub calls-IsSolvent :
      (c : CashBalance) (ops : List CashOp) → IsSolvent c → IsSolvent (calls c ops)
  unfolding calls
  calls-IsSolvent c [] s = s
  calls-IsSolvent c (op ∷ ops) s = calls-IsSolvent (call c op) ops (call-IsSolvent c op s)

  -- A reservation that was granted, from a reserved balance that is not negative, is undone by
  -- releasing it, to the balance before, where sums and differences are exact.
  pub release-reserve :
      (c : CashBalance) (x : Decimal)
      → IsSolvent c
      → (reserve c x).1 ≡ ok tt
      → release (reserve c x).0 x ≡ (c, x)
  unfolding release reserve
  release-reserve c x s h = grind exact

  -- For a threshold that is not negative, a second synchronisation against the same figure finds
  -- nothing to correct, and the balance lies within the threshold of what the exchange says is
  -- free, where sums and differences are exact.
  pub sync_settles :
      (c : CashBalance) (t w : Decimal)
      → nought ≤ℤ w
      → let c' = (sync_from_exchange c t w).0 in
        (sync_from_exchange c' t w ≡ (c', none))
        × (abs (sub (max (sub t c'.reserved) nought) c'.available) ≤ℤ w)
        × (c'.reserved ≡ c.reserved)
  unfolding sync_from_exchange
  sync_settles c t w h = grind exact
