-- ===== src/Decimal.antt =====
-- `rust_decimal::Decimal`, which the whole program computes with. A `Decimal` stands for its value,
-- a whole number of units of 10^-28, the crate's finest scale: its comparisons, sign, `abs`,
-- negation, `min` and `max` are those of the value. The four operations round and overflow as the
-- crate decides, so they are a parameter, `DecimalOps`; what the code relies on are named laws.
pub mod Exact
pub mod Lots
use poly_bot.Prelude.{
  ℕ, ◌+◌, ◌-◌, ◌*◌, ◌^◌, ◌≤◌, ◌≡◌, Bool, List, [], ◌∷◌, foldl, arith, if◌then◌else◌,
}
pub use poly_bot.Prelude.Int.{
  ℤ, pos, negsuc, pos_part, neg_part, ◌≤ℤ◌, ◌<ℤ◌, ltb_ℤ, leb_ℤ, eqb_ℤ, eq_of_parts,
}

abbrev pub Decimal : Type 0
Decimal = ℤ

-- `Decimal::new(n, scale)`, and the literal `dec!`
abbrev pub dec : ℕ → ℕ → Decimal
dec n scale = pos (n * 10 ^ (28 - scale))

abbrev pub nought : Decimal
nought = pos 0

abbrev pub one : Decimal
one = dec 1 0

-- The order of `Decimal`, under short names.
abbrev pub lt : Decimal → Decimal → Bool
lt = ltb_ℤ

abbrev pub le : Decimal → Decimal → Bool
le = leb_ℤ

abbrev pub eq : Decimal → Decimal → Bool
eq = eqb_ℤ

abbrev pub neg : Decimal → Decimal
neg (pos ℕ.zero) = pos 0
neg (pos (ℕ.suc n)) = negsuc n
neg (negsuc n) = pos (ℕ.suc n)

abbrev pub abs : Decimal → Decimal
abs a = pos (pos_part a + neg_part a)

abbrev pub signum : Decimal → Decimal
signum (pos ℕ.zero) = nought
signum (pos (ℕ.suc n)) = one
signum (negsuc n) = neg one

abbrev pub min : Decimal → Decimal → Decimal
min a b = if le a b then a else b

abbrev pub max : Decimal → Decimal → Decimal
max a b = if le b a then a else b

pub record DecimalOps : Type 0 where
  pub op_add : Decimal → Decimal → Decimal
  pub op_sub : Decimal → Decimal → Decimal
  pub op_mul : Decimal → Decimal → Decimal
  pub op_div : Decimal → Decimal → Decimal
  pub op_ceil : Decimal → Decimal
  pub op_floor : Decimal → Decimal
  pub op_round : Decimal → Decimal
  pub op_truncate : (places : ℕ) → Decimal → Decimal

abbrev pub add : ⦃o : DecimalOps⦄ → Decimal → Decimal → Decimal
add ⦃o⦄ = o.op_add

abbrev pub sub : ⦃o : DecimalOps⦄ → Decimal → Decimal → Decimal
sub ⦃o⦄ = o.op_sub

abbrev pub mul : ⦃o : DecimalOps⦄ → Decimal → Decimal → Decimal
mul ⦃o⦄ = o.op_mul

abbrev pub div : ⦃o : DecimalOps⦄ → Decimal → Decimal → Decimal
div ⦃o⦄ = o.op_div

abbrev pub ceil : ⦃o : DecimalOps⦄ → Decimal → Decimal
ceil ⦃o⦄ = o.op_ceil

abbrev pub floor : ⦃o : DecimalOps⦄ → Decimal → Decimal
floor ⦃o⦄ = o.op_floor

-- `round()`, half to even
abbrev pub round : ⦃o : DecimalOps⦄ → Decimal → Decimal
round ⦃o⦄ = o.op_round

-- `round_dp_with_strategy(places, ToZero)`
abbrev pub truncate : ⦃o : DecimalOps⦄ → (places : ℕ) → Decimal → Decimal
truncate ⦃o⦄ = o.op_truncate

-- `iter().sum()`
abbrev pub total_of : ⦃o : DecimalOps⦄ → List Decimal → Decimal
total_of ⦃o⦄ = foldl o.op_add nought

-- Sums and differences are exact: no amount in the program passes 28 digits.
pub record IsExact ⦃o : DecimalOps⦄ : Type 0 where
  pub add_parts :
      (a b : Decimal)
      → pos_part (add a b) + neg_part a + neg_part b ≡ neg_part (add a b) + pos_part a + pos_part b
  pub sub_parts :
      (a b : Decimal)
      → pos_part (sub a b) + neg_part a + pos_part b ≡ neg_part (sub a b) + pos_part a + neg_part b

-- A product has the sign of its factors, and with zero is zero; rounding changes neither.
pub record HasSigns ⦃o : DecimalOps⦄ : Type 0 where
  pub mul_zero_left : (a b : Decimal) → a ≡ nought → mul a b ≡ nought
  pub mul_nonneg : (a b : Decimal) → nought ≤ℤ a → nought ≤ℤ b → nought ≤ℤ mul a b
  pub mul_nonpos : (a b : Decimal) → a ≤ℤ nought → nought ≤ℤ b → mul a b ≤ℤ nought

-- The factors of a product may change places.
pub record Commutes ⦃o : DecimalOps⦄ : Type 0 where
  pub mul_comm : (a b : Decimal) → mul a b ≡ mul b a

-- Products with a positive factor keep the order, and the number of whole lots in a size, times the
-- lot, is at most the size and falls short of it by less than a lot.
pub record HasLots ⦃o : DecimalOps⦄ : Type 0 where
  pub mul_mono : (p a b : Decimal) → nought ≤ℤ p → a ≤ℤ b → mul p a ≤ℤ mul p b
  pub lots_below :
      (size lot : Decimal) → nought ≤ℤ size → nought <ℤ lot → mul (floor (div size lot)) lot ≤ℤ size
  pub lots_above :
      (size lot : Decimal)
      → nought ≤ℤ size
      → nought <ℤ lot
      → size <ℤ add (mul (floor (div size lot)) lot) lot

-- An amount times a rate of at most one is at most the amount.
pub record HasRates ⦃o : DecimalOps⦄ : Type 0 where
  pub mul_at_most : (a rate : Decimal) → nought ≤ℤ a → rate ≤ℤ one → mul a rate ≤ℤ a

-- Dividing a whole number of ticks by the tick is exact, rounding leaves a whole number alone, and
-- zero divided by a positive amount is zero.
pub record HasTicks ⦃o : DecimalOps⦄ : Type 0 where
  pub div_ticks :
      (n : ℕ) (tick : Decimal) → nought <ℤ tick → div (mul (dec n 0) tick) tick ≡ dec n 0
  pub ceil_whole : (n : ℕ) → ceil (dec n 0) ≡ dec n 0
  pub floor_whole : (n : ℕ) → floor (dec n 0) ≡ dec n 0
  pub div_nought : (b : Decimal) → nought <ℤ b → div nought b ≡ nought

module _ ⦃o : DecimalOps⦄ ⦃ex : IsExact⦄ where
  pub add_exact :
      (a b : Decimal)
      → pos_part (add a b) + neg_part a + neg_part b ≡ neg_part (add a b) + pos_part a + pos_part b
  add_exact = ex.add_parts

  pub sub_exact :
      (a b : Decimal)
      → pos_part (sub a b) + neg_part a + pos_part b ≡ neg_part (sub a b) + pos_part a + neg_part b
  sub_exact = ex.sub_parts

-- With these the tactics compute with sums, differences and comparisons.
pub ruleset exact = (arith, add_exact, sub_exact, eq_of_parts)
