-- ===== src/Decimal/Exact.antt =====
-- A concrete choice of the operations, on which the definitions run and the laws hold: exact sums,
-- and products and quotients cut off at the 28th place.
use poly_bot.Prelude.{
  ltb, if◌then◌else◌, ◌-◌, ◌%◌, ℕ, suc, ◌+◌, ◌*◌, ◌/◌, ◌^◌, ◌≡◌, ◌∙◌, ap, refl, ◌<◌, arith,
}
use native.Mathlib.Nat.{mul-div_cancel, zero-div}
use poly_bot.Prelude.Int.{+ℤ_parts, -ℤ_parts, ◌+ℤ◌, ◌-ℤ◌}
use poly_bot.Decimal.{
  Decimal, pos, negsuc, pos_part, neg_part, nought, neg, DecimalOps, IsExact, HasSigns, Commutes,
  HasTicks, dec, ◌<ℤ◌, ◌≤ℤ◌,
}

abbrev pub unit : ℕ
unit = 10 ^ 28

abbrev pub magnitude : Decimal → ℕ
magnitude a = pos_part a + neg_part a

-- the sign of a product or a quotient, by those of the operands
abbrev pub signed : Decimal → Decimal → ℕ → Decimal
signed (pos _) (pos _) m = pos m
signed (negsuc _) (negsuc _) m = pos m
signed (pos _) (negsuc _) m = neg (pos m)
signed (negsuc _) (pos _) m = neg (pos m)

abbrev pub product : Decimal → Decimal → Decimal
product a b = signed a b (magnitude a * magnitude b / unit)

abbrev pub quotient : Decimal → Decimal → Decimal
quotient a b = signed a b (magnitude a * unit / magnitude b)

abbrev pub whole_below : Decimal → Decimal
whole_below (pos n) = pos (n / unit * unit)
whole_below (negsuc n) = neg (pos ((n + unit) / unit * unit))

abbrev whole_above : Decimal → Decimal
whole_above a = neg (whole_below (neg a))

-- the nearest whole number, the even one of two
abbrev nearest : ℕ → ℕ
nearest n =
    if ltb (2 * (n % unit)) unit
    then n / unit
    else if ltb unit (2 * (n % unit))
    then n / unit + 1
    else n / unit + n / unit % 2

abbrev whole_nearest : Decimal → Decimal
whole_nearest a = signed a (pos 0) (nearest (magnitude a) * unit)

abbrev cut_off : ℕ → Decimal → Decimal
cut_off places a = signed a (pos 0) (magnitude a / 10 ^ (28 - places) * 10 ^ (28 - places))

instance abbrev pub exact_ops : DecimalOps
exact_ops = record {
  op_add = ◌+ℤ◌;
  op_sub = ◌-ℤ◌;
  op_mul = product;
  op_div = quotient;
  op_ceil = whole_above;
  op_floor = whole_below;
  op_round = whole_nearest;
  op_truncate = cut_off;
}

pub exact_ops-IsExact : IsExact ⦃o = exact_ops⦄
exact_ops-IsExact = record { add_parts = +ℤ_parts; sub_parts = -ℤ_parts }

neg_zero : (k : ℕ) → k ≡ 0 → neg (pos k) ≡ nought
neg_zero k h = rw h

neg_nonpos : (k : ℕ) → neg (pos k) ≤ℤ nought
neg_nonpos ℕ.zero = omega arith
neg_nonpos (suc k) = omega arith

mul_zero_left : (a b : Decimal) → a ≡ nought → product a b ≡ nought
mul_zero_left (pos n) (pos m) h = grind arith
mul_zero_left (pos n) (negsuc m) h = neg_zero _ (grind arith)
mul_zero_left (negsuc n) b h = cc

mul_nonneg : (a b : Decimal) → nought ≤ℤ a → nought ≤ℤ b → nought ≤ℤ product a b
mul_nonneg (pos n) (pos m) h k = omega arith
mul_nonneg (pos n) (negsuc m) h k = omega arith
mul_nonneg (negsuc n) b h k = omega arith

mul_nonpos : (a b : Decimal) → a ≤ℤ nought → nought ≤ℤ b → product a b ≤ℤ nought
mul_nonpos (pos n) (pos m) h k = grind arith
mul_nonpos (pos n) (negsuc m) h k = omega arith
mul_nonpos (negsuc n) (pos m) h k = neg_nonpos _
mul_nonpos (negsuc n) (negsuc m) h k = omega arith

pub exact_ops-HasSigns : HasSigns ⦃o = exact_ops⦄
exact_ops-HasSigns = record {
  mul_zero_left = mul_zero_left;
  mul_nonneg = mul_nonneg;
  mul_nonpos = mul_nonpos;
}

product_comm : (a b : Decimal) → product a b ≡ product b a
product_comm (pos n) (pos m) = grind arith
product_comm (pos n) (negsuc m) = grind arith
product_comm (negsuc n) (pos m) = grind arith
product_comm (negsuc n) (negsuc m) = grind arith

pub exact_ops-Commutes : Commutes ⦃o = exact_ops⦄
exact_ops-Commutes = record { mul_comm = product_comm }

ticks_exact : (n u m : ℕ) → 0 < u → 0 < m → n * u * m / u * u / m ≡ n * u
ticks_exact n u m h k =
    let e : n * u * m ≡ n * m * u = grind arith in
    let f : n * m * u ≡ n * u * m = grind arith in
    ap (λ x. x / u * u / m) e
    ∙ ap (λ x. x * u / m) (mul-div_cancel (n * m) h)
    ∙ ap (λ x. x / m) f
    ∙ mul-div_cancel (n * u) k

div_ticks : (n : ℕ) (t : Decimal) → nought <ℤ t → quotient (product (dec n 0) t) t ≡ dec n 0
div_ticks n (pos m) h = ap pos (grind (arith, ticks_exact n unit m (omega arith) (omega arith)))
div_ticks n (negsuc m) h = ground arith

above_whole : (k n : ℕ) → k ≡ n * unit → whole_above (pos k) ≡ pos k
above_whole ℕ.zero n h = refl
above_whole (suc j) n h =
    let e : (j + unit) / unit * unit ≡ suc j = omega (arith, h) in ap (λ x. neg (neg (pos x))) e

below_whole : (k n : ℕ) → k ≡ n * unit → whole_below (pos k) ≡ pos k
below_whole k n h = let e : k / unit * unit ≡ k = omega (arith, h) in ap pos e

div_nought : (b : Decimal) → nought <ℤ b → quotient nought b ≡ nought
div_nought (pos m) h = let e : 0 * unit / (m + 0) ≡ 0 = grind (arith, zero-div m) in ap pos e
div_nought (negsuc m) h = ground arith

pub exact_ops-HasTicks : HasTicks ⦃o = exact_ops⦄
exact_ops-HasTicks = record {
  div_ticks = div_ticks;
  ceil_whole = λ n. above_whole _ n refl;
  floor_whole = λ n. below_whole _ n refl;
  div_nought = div_nought;
}
