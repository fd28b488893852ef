-- ===== src/Ledger/Cash.antt =====
-- src/ledger/cash.rs: `CashBalance`. Each method runs under its write locks, so it is one step from
-- a balance to the next, with its result beside it.
pub mod Conservation
mod Examples
use poly_bot.Prelude.{Bool, Option, none, some, if◌then◌else◌}
use poly_bot.Decimal.{Decimal, nought, le, lt, min, max, abs, DecimalOps, add, sub}
use poly_bot.Types.{BotError, Result, ok, err}

pub record CashBalance : Type 0 where
  pub available : Decimal
  pub reserved : Decimal

unfoldable pub new : Decimal → CashBalance
new initial = record { available = initial; reserved = nought }

pub record CashSnapshot : Type 0 where
  pub available : Decimal
  pub reserved : Decimal
  pub total : Decimal

module _ ⦃o : DecimalOps⦄ where
  unfoldable pub total : CashBalance → Decimal
  total c = add c.available c.reserved

  -- Locks cash for an order; refused where it is not there.
  unfoldable pub reserve : CashBalance → Decimal → CashBalance × Result (Unit {0})
  reserve c amount =
      if le amount nought
      then (c, err BotError.cannot_reserve)
      else if lt c.available amount
      then (c, err (BotError.insufficient_funds amount c.available))
      else (
        record c { available = sub c.available amount; reserved = add c.reserved amount },
        ok tt,
      )

  -- Unlocks at most what is reserved, and returns the amount unlocked.
  unfoldable pub release : CashBalance → Decimal → CashBalance × Decimal
  release c amount =
      if le amount nought
      then (c, nought)
      else (let actual = min amount c.reserved in
          (
            record c { available = add c.available actual; reserved = sub c.reserved actual },
            actual,
          ))

  -- A buy fill spends reserved cash; a short reservation is spent whole.
  unfoldable pub settle_buy : CashBalance → Decimal → CashBalance × Result Decimal
  settle_buy c amount =
      if le amount nought
      then (c, err BotError.cannot_settle)
      else if lt c.reserved amount
      then (record c { reserved = nought }, ok c.reserved)
      else (record c { reserved = sub c.reserved amount }, ok amount)

  unfoldable pub settle_sell : CashBalance → Decimal → CashBalance
  settle_sell c proceeds =
      if le proceeds nought then c else record c { available = add c.available proceeds }

  unfoldable pub deposit : CashBalance → Decimal → CashBalance
  deposit c amount = if le amount nought then c else record c { available = add c.available amount }

  unfoldable pub withdraw : CashBalance → Decimal → CashBalance × Result Decimal
  withdraw c amount =
      if le amount nought
      then (c, err BotError.cannot_withdraw)
      else if lt c.available amount
      then (c, err (BotError.insufficient_for_withdrawal amount c.available))
      else (record c { available = sub c.available amount }, ok amount)

  -- A fee may leave a debt.
  unfoldable pub deduct_fee : CashBalance → Decimal → CashBalance
  deduct_fee c fee = if le fee nought then c else record c { available = sub c.available fee }

  unfoldable pub snapshot : CashBalance → CashSnapshot
  unfolding total
  snapshot c = record { available = c.available; reserved = c.reserved; total = total c }

  -- Corrects `available` where it drifts from the exchange's figure by more than `threshold`.
  unfoldable pub sync_from_exchange : CashBalance → Decimal → Decimal → CashBalance × Option Decimal
  sync_from_exchange c exchange_total threshold =
      let exchange_available = max (sub exchange_total c.reserved) nought in
      let drift = sub exchange_available c.available in
      if lt threshold (abs drift)
      then (record c { available = exchange_available }, some drift)
      else (c, none)

unfoldable pub can_afford : CashBalance → Decimal → Bool
can_afford c amount = le amount c.available

unfoldable pub reset : CashBalance → Decimal → CashBalance
reset c initial = record c { available = initial; reserved = nought }
