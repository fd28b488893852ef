-- ===== src/Execution/Executor/Lots.antt =====
-- The greatest common divisor, and what the lots are for.
use poly_bot.Prelude.{ℕ, zero, suc, ◌*◌, ◌/◌, ◌%◌, ◌<◌, ◌≤◌, ◌≡◌, ◌∙◌, ap, sym, arith}
use Prim.Native.Nat.{◌∣◌}
use mathlib.Core.Logic.{dite}
use mathlib.Core.WellFounded.{Acc}
use native.Mathlib.Decide.{dec_lt}
use native.Mathlib.Nat.{dvd-mod_iff, dvd_refl, mul-mod_left, dvd-zero, mul-div_cancel'}
use poly_bot.Prelude.Order.{lt_wf}
use poly_bot.Execution.Executor.Quantize.{gcd_loop, gcd_u64, lot_cents}

pub record IsGcd (a b g : ℕ) : Type 0 where
  pub divides_left : g ∣ a
  pub divides_right : g ∣ b
  pub is_greatest : (d : ℕ) → d ∣ a → d ∣ b → d ∣ g

dite-both :
    {A : Type 0} (P : ℕ → Type 0) (decided : Dec A) (f : A → ℕ) (g : ¬ A → ℕ)
    → ((h : A) → P (f h))
    → ((h : ¬ A) → P (g h))
    → P (dite decided f g)
dite-both P (yes h) f g p q = p h
dite-both P (no h) f g p q = q h

IsGcd-step : (a b g : ℕ) → IsGcd b (a % b) g → IsGcd a b g
IsGcd-step a b g r = record {
  divides_left = (dvd-mod_iff g r.divides_left).0 r.divides_right;
  divides_right = r.divides_left;
  is_greatest = λ d p q. r.is_greatest d q ((dvd-mod_iff d q).1 p);
}

IsGcd-zero : (a b : ℕ) → b ≡ 0 → IsGcd a b a
IsGcd-zero a b e =
    rw e
      (record { divides_left = dvd_refl a; divides_right = dvd-zero a; is_greatest = λ d p q. p })

gcd_loop-IsGcd : {b : ℕ} (w : Acc ◌<◌ b) (a : ℕ) → IsGcd a b (gcd_loop w a)
unfolding gcd_loop
gcd_loop-IsGcd {b} (Acc.intro _ less) a =
    dite-both (IsGcd a b) (dec_lt 0 b) _ _
      (λ goes_on. IsGcd-step a b _ (gcd_loop-IsGcd (less (a % b) (omega arith)) b))
      (λ ends. IsGcd-zero a b (omega arith))

-- The loop ends on all numbers, and what it returns is their greatest common divisor.
pub gcd_u64-IsGcd : (a b : ℕ) → IsGcd a b (gcd_u64 a b)
unfolding gcd_u64
gcd_u64-IsGcd a b = gcd_loop-IsGcd (lt_wf.apply b) a

whole_hundreds : (n k g q p : ℕ) → g * k ≡ 100 → g * q ≡ p → n * k * p % 100 ≡ 0
whole_hundreds n k g q p e f =
    let swap : n * k * (g * q) ≡ n * q * (g * k) = grind arith in
    let whole : n * k * p ≡ n * q * 100 =
      ap (λ x. n * k * x) (sym f) ∙ swap ∙ ap (λ x. n * q * x) e in
    ap (λ x. x % 100) whole ∙ mul-mod_left (n * q) 100

factor_bounds : (g k : ℕ) → g * k ≡ 100 → (0 < k) × (k ≤ 100)
factor_bounds zero k e = absurd (omega arith)
factor_bounds (suc g) zero e = absurd (omega arith)
factor_bounds (suc g) (suc k) e = (omega arith, grind arith)

-- A whole number of lots at a price in whole cents costs whole cents.
pub lots_cost_cents :
    (price_cents lots : ℕ)
    → (lots * lot_cents price_cents * price_cents % 100 ≡ 0)
      × (0 < lot_cents price_cents)
      × (lot_cents price_cents ≤ 100)
unfolding lot_cents
lots_cost_cents p n =
    let g : ℕ = gcd_u64 p 100 in
    let r : IsGcd p 100 g = gcd_u64-IsGcd p 100 in
    let e : g * (100 / g) ≡ 100 = mul-div_cancel' g r.divides_right in
    let bounds = factor_bounds g (100 / g) e in
    (
      whole_hundreds n (100 / g) g (p / g) p e (mul-div_cancel' g r.divides_left),
      bounds.0,
      bounds.1,
    )
