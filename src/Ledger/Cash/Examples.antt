-- ===== src/Ledger/Cash/Examples.antt =====
-- Runs of the balance of src/ledger/cash.rs on the amounts of its unit tests, and the theorems there.
use poly_bot.Prelude.{◌≡◌, refl, List, [], ◌∷◌}
use poly_bot.Prelude.Int.{◌+ℤ◌, ◌-ℤ◌}
use poly_bot.Decimal.{dec, sub, add}
use poly_bot.Decimal.Exact.{exact_ops, exact_ops-IsExact}
use poly_bot.Ledger.Cash.{
  CashBalance, total, reserve, release, settle_buy, settle_sell, withdraw, sync_from_exchange,
}
use poly_bot.Ledger.Cash.Conservation.{CashOp, call, calls, all_in, all_out, total-calls}

abbrev thousand : CashBalance
thousand = record { available = dec 1000 0; reserved = dec 0 0 }

abbrev day : List CashOp
day =
    CashOp.reserve_op (dec 300 0)
    ∷ CashOp.settle_buy_op (dec 200 0)
    ∷ CashOp.release_op (dec 150 0)
    ∷ CashOp.settle_sell_op (dec 250 0)
    ∷ CashOp.withdraw_op (dec 5000 0)
    ∷ CashOp.sync_op (dec 1020 0) (dec 5 0)
    ∷ []

day_runs : calls thousand day ≡ record { available = dec 1020 0; reserved = dec 0 0 }
unfolding calls call reserve release settle_buy settle_sell withdraw sync_from_exchange ◌+ℤ◌ ◌-ℤ◌
day_runs = refl

total-calls_example :
    total (calls thousand day)
    ≡ sub (add (total thousand) (all_in thousand day)) (all_out thousand day)
total-calls_example = total-calls ⦃ex = exact_ops-IsExact⦄ thousand day
