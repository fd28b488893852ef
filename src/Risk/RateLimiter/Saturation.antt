-- ===== src/Risk/RateLimiter/Saturation.antt =====
-- What a rate limiter does once as many requests are recorded as the long window admits.
use poly_bot.Prelude.{
  ℕ, ◌≡◌, refl, Bool, true, false, ◌||◌, List, [], ◌∷◌, length, arith, u32, leb, ap, ◌∙◌,
}
use poly_bot.Risk.RateLimiter.{RateLimiter, limit_of, would_exceed, check, try_acquire}
use poly_bot.Risk.RateLimiter.Windows.{acquire_all}

-- As many requests are recorded as the long window admits.
abbrev pub is_saturated : RateLimiter → Bool
is_saturated l = leb (limit_of l.sustained l.threshold) (u32 (length l.timestamps))

saturated_exceeds : (l : RateLimiter) (now : ℕ) → is_saturated l ≡ true → would_exceed l now ≡ true
unfolding would_exceed
saturated_exceeds l now h = ground arith

saturated_keeps : (l : RateLimiter) (now : ℕ) → is_saturated l ≡ true → (try_acquire l now).0 ≡ l
unfolding try_acquire
saturated_keeps l now h = ground (arith, saturated_exceeds l now h)

acquire_all_keeps : (ts : List ℕ) (l : RateLimiter) → is_saturated l ≡ true → acquire_all l ts ≡ l
unfolding acquire_all
acquire_all_keeps [] l h = refl
acquire_all_keeps (now ∷ ts) l h =
    ap (λ x. acquire_all x ts) (saturated_keeps l now h) ∙ acquire_all_keeps ts l h

refused_when :
    (l : RateLimiter) (now : ℕ)
    → would_exceed l now ≡ true
    → (check l now || (try_acquire l now).1) ≡ false
unfolding check try_acquire
refused_when l now h = ground arith

-- A limiter that has recorded as many requests as the long window admits refuses for good, at any
-- later time and after any further requests.
pub saturated_forever :
    (l : RateLimiter) (ts : List ℕ) (now : ℕ)
    → is_saturated l ≡ true
    → (check (acquire_all l ts) now || (try_acquire (acquire_all l ts) now).1) ≡ false
saturated_forever l ts now h =
    ap (λ x. check x now || (try_acquire x now).1) (acquire_all_keeps ts l h)
    ∙ refused_when l now (saturated_exceeds l now h)
