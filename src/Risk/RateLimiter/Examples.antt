-- ===== src/Risk/RateLimiter/Examples.antt =====
-- The rate limiter's theorems on a small limiter.
use poly_bot.Prelude.{
  true, ◌&&◌, ltb, ℕ, refl, ◌≡◌, true, false, ◌&&◌, ◌||◌, All, ltb, if◌then◌else◌, ◌≤◌, List, [],
  ◌∷◌, arith,
}
use poly_bot.Risk.RateLimiter.{
  RateLimiter, is_recent, limit_of, try_acquire, check, would_exceed, pruned,
}
use poly_bot.Risk.RateLimiter.Pruning.{recent}
use poly_bot.Risk.RateLimiter.Windows.{IsValid, acquire_all, try_acquire_lem}
use poly_bot.Risk.RateLimiter.Saturation.{is_saturated, is_saturated, saturated_forever}

-- Two of three requests in 10 seconds, four of five in 600.
abbrev small : RateLimiter
small = record {
  timestamps = [];
  burst = record { max_requests = 3; duration = 10 };
  sustained = record { max_requests = 5; duration = 600 };
  threshold = 80;
}

small-IsValid : IsValid 1000 small
unfolding limit_of
small-IsValid = ground arith

try_acquire_lem_example :
    ((try_acquire small 1000).1
      ≡ (ltb (recent 10 1000 []) (limit_of small.burst 80) && ltb 0 (limit_of small.sustained 80)))
    × (if (try_acquire small 1000).1
        then (recent 10 1000 (try_acquire small 1000).0.timestamps ≤ limit_of small.burst 80)
          × All (λ t. is_recent 600 1000 t ≡ true) (try_acquire small 1000).0.timestamps
        else (try_acquire small 1000).0 ≡ small)
try_acquire_lem_example = try_acquire_lem small 1000 small-IsValid

abbrev spaced : List ℕ
spaced = 1000 ∷ 1010 ∷ 1025 ∷ 1040 ∷ []

abbrev full : RateLimiter
full = acquire_all small spaced

full_saturated : is_saturated full ≡ true
unfolding acquire_all try_acquire would_exceed pruned limit_of
full_saturated = refl

saturated_forever_example :
    (check (acquire_all full (1700 ∷ [])) 90000
      || (try_acquire (acquire_all full (1700 ∷ [])) 90000).1)
    ≡ false
saturated_forever_example = saturated_forever full (1700 ∷ []) 90000 full_saturated
