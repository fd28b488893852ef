-- ===== src/Decimal/Lots.antt =====
-- The concrete operations keep the order and count whole lots.
use poly_bot.Prelude.{ℕ, zero, suc, ◌+◌, ◌*◌, ◌/◌, ◌≡◌, ◌∙◌, ap, ◌<◌, ◌≤◌, arith, sym}
use native.Mathlib.Nat.{
  mul-div_cancel, mul-le-mul_left, mul-le-mul_right, div-mul-le_self, lt-div-mul-add,
}
use poly_bot.Decimal.{Decimal, pos, negsuc, nought, neg, ◌<ℤ◌, ◌≤ℤ◌, HasLots, HasRates, one, add}
use poly_bot.Prelude.Int.{+ℤ_parts}
use poly_bot.Decimal.Exact.{exact_ops, unit, product, quotient, whole_below}

neg_le : (i j : ℕ) → neg (pos i) ≤ℤ pos j
neg_le zero j = omega arith
neg_le (suc i) j = omega arith

neg_anti : (i j : ℕ) → j ≤ i → neg (pos i) ≤ℤ neg (pos j)
neg_anti zero zero h = omega arith
neg_anti zero (suc j) h = omega arith
neg_anti (suc i) zero h = omega arith
neg_anti (suc i) (suc j) h = omega arith

mul_mono : (p a b : Decimal) → nought ≤ℤ p → a ≤ℤ b → product p a ≤ℤ product p b
mul_mono (pos p) (pos a) (pos b) h k =
    let step : (p + 0) * (a + 0) ≤ (p + 0) * (b + 0) = mul-le-mul_left (p + 0) (omega arith) in
    omega (arith, step)
mul_mono (pos p) (negsuc a) (pos b) h k = neg_le _ _
mul_mono (pos p) (negsuc a) (negsuc b) h k =
    let step : (p + 0) * (0 + suc b) ≤ (p + 0) * (0 + suc a) =
      mul-le-mul_left (p + 0) (omega arith) in
    neg_anti _ _ (omega (arith, step))
mul_mono (pos p) (pos a) (negsuc b) h k = absurd (omega arith)
mul_mono (negsuc p) a b h k = absurd (omega arith)

-- The whole lots in `s`, for a lot `l`, by quotients that are cut off.
lots : (s l : ℕ) → ℕ
lots s l = s * unit / l / unit

lots_exact : (k l : ℕ) → k * unit * l / unit ≡ k * l
lots_exact k l =
    let e : k * unit * l ≡ k * l * unit = grind arith in
    ap (λ x. x / unit) e ∙ mul-div_cancel (k * l) (omega arith)

lots_bounds : (s l : ℕ) → 0 < l → (lots s l * l ≤ s) × (s < lots s l * l + l)
unfolding lots
lots_bounds s l h =
    let q : ℕ = s * unit / l in
    let k : ℕ = q / unit in
    let below : q * l ≤ s * unit = div-mul-le_self (s * unit) l in
    let above : s * unit < q * l + l = lt-div-mul-add h in
    let k_below : k * unit * l ≤ q * l = mul-le-mul_right l (omega arith) in
    let k_above : (q + 1) * l ≤ (k + 1) * unit * l = mul-le-mul_right l (omega arith) in
    let e : k * unit * l ≡ k * l * unit = grind arith in
    let f : (k + 1) * unit * l ≡ (k * l + l) * unit = grind arith in
    let g : (q + 1) * l ≡ q * l + l = grind arith in
    (omega (arith, below, k_below, e), omega (arith, above, k_above, f, g))

product-lots :
    (s l : ℕ)
    → product (whole_below (quotient (pos s) (pos l))) (pos l)
      ≡ pos (lots (s + 0) (l + 0) * (l + 0))
unfolding lots
product-lots s l =
    let k : ℕ = (s + 0) * unit / (l + 0) / unit in
    let e : (k * unit + 0) * (l + 0) ≡ k * unit * (l + 0) = grind arith in
    ap pos (ap (λ x. x / unit) e ∙ lots_exact k (l + 0))

le_via : (a b c : Decimal) → a ≡ b → b ≤ℤ c → a ≤ℤ c
le_via a b c e h = rw e h

lt_via : (s m l : ℕ) (a : Decimal) → a ≡ pos m → s < m + l → pos s <ℤ add ⦃o = exact_ops⦄ a (pos l)
lt_via s m l a e h = rw e (omega (arith, +ℤ_parts (pos m) (pos l)))

lots_below :
    (size lot : Decimal)
    → nought ≤ℤ size
    → nought <ℤ lot
    → product (whole_below (quotient size lot)) lot ≤ℤ size
lots_below (pos s) (pos l) h k =
    let bounds = lots_bounds (s + 0) (l + 0) (omega arith) in
    le_via _ _ (pos s) (product-lots s l) (omega (arith, bounds.0))
lots_below (negsuc s) lot h k = absurd (omega arith)
lots_below (pos s) (negsuc l) h k = absurd (omega arith)

lots_above :
    (size lot : Decimal)
    → nought ≤ℤ size
    → nought <ℤ lot
    → size <ℤ add ⦃o = exact_ops⦄ (product (whole_below (quotient size lot)) lot) lot
lots_above (pos s) (pos l) h k =
    let bounds = lots_bounds (s + 0) (l + 0) (omega arith) in
    lt_via s _ l _ (product-lots s l) (omega (arith, bounds.1))
lots_above (negsuc s) lot h k = absurd (omega arith)
lots_above (pos s) (negsuc l) h k = absurd (omega arith)

pub exact_ops-HasLots : HasLots ⦃o = exact_ops⦄
exact_ops-HasLots = record { mul_mono = mul_mono; lots_below = lots_below; lots_above = lots_above }

product-one : (a : Decimal) → nought ≤ℤ a → product a one ≡ a
product-one (pos n) h =
    ap pos (ap (λ x. x * unit / unit) (grind arith) ∙ mul-div_cancel n (omega arith))
product-one (negsuc n) h = absurd (omega arith)

le_then : (a b c : Decimal) → a ≤ℤ b → b ≡ c → a ≤ℤ c
le_then a b c h e = rw (sym e) h

mul_at_most : (a rate : Decimal) → nought ≤ℤ a → rate ≤ℤ one → product a rate ≤ℤ a
mul_at_most a rate h k = le_then _ _ a (mul_mono a rate one h k) (product-one a h)

pub exact_ops-HasRates : HasRates ⦃o = exact_ops⦄
exact_ops-HasRates = record { mul_at_most = mul_at_most }
