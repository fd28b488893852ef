-- ===== src/Risk/RateLimiter.antt =====
-- src/risk/rate_limiter.rs: `RateLimiter`. Times are numbers of one clock, no earlier than the
-- longest window, and `now` is the time that a method reads. A cutoff `t >= now - d` is written
-- `now <= t + d`. The safety margin, an `f64` literal of two decimals, is kept in hundredths; for
-- the limits of the two constructors its rounded product is the whole number that is here.
pub mod Pruning
pub mod Windows
pub mod Saturation
mod Examples
use poly_bot.Prelude.{
  ℕ, suc, ◌+◌, ◌-◌, ◌*◌, ◌/◌, Bool, true, false, not, ◌||◌, List, [], ◌∷◌, length, u32, ltb, leb,
  if◌then◌else◌,
}

pub record Window : Type 0 where
  pub max_requests : ℕ
  pub duration : ℕ

-- `timestamps` is the deque read from its back, the newest first.
pub record RateLimiter : Type 0 where
  pub timestamps : List ℕ
  pub burst : Window
  pub sustained : Window
  pub threshold : ℕ

pub record RateLimiterStats : Type 0 where
  pub burst_count : ℕ
  pub burst_limit : ℕ
  pub burst_window : ℕ
  pub sustained_count : ℕ
  pub sustained_limit : ℕ
  pub sustained_window : ℕ

unfoldable pub for_order_submission : RateLimiter
for_order_submission = record {
  timestamps = [];
  burst = record { max_requests = 3_500; duration = 10 };
  sustained = record { max_requests = 36_000; duration = 600 };
  threshold = 80;
}

unfoldable pub for_order_cancellation : RateLimiter
for_order_cancellation = record {
  timestamps = [];
  burst = record { max_requests = 3_000; duration = 10 };
  sustained = record { max_requests = 30_000; duration = 600 };
  threshold = 80;
}

-- `iter().rev().take_while(p).count()`
abbrev pub count_while : (ℕ → Bool) → List ℕ → ℕ
count_while p [] = 0
count_while p (t ∷ ts) = if p t then suc (count_while p ts) else 0

-- The requests that a window admits, less the margin.
unfoldable pub limit_of : Window → ℕ → ℕ
limit_of w threshold = w.max_requests * threshold / 100

abbrev pub is_recent : (duration now t : ℕ) → Bool
is_recent duration now t = leb now (t + duration)

unfoldable pub would_exceed : RateLimiter → ℕ → Bool
would_exceed l now =
    leb (limit_of l.burst l.threshold)
      (u32 (count_while (is_recent l.burst.duration now) l.timestamps))
    || leb (limit_of l.sustained l.threshold) (u32 (length l.timestamps))

unfoldable pub check : RateLimiter → ℕ → Bool
check l now = not (would_exceed l now)

abbrev pub keep_newer : (duration now t : ℕ) → List ℕ → List ℕ
keep_newer duration now t [] = if is_recent duration now t then t ∷ [] else []
keep_newer duration now t (u ∷ us) = t ∷ u ∷ us

-- The oldest are popped from the front as long as they lie before the cutoff.
unfoldable pub pruned : (duration now : ℕ) → List ℕ → List ℕ
pruned duration now [] = []
pruned duration now (t ∷ ts) = keep_newer duration now t (pruned duration now ts)

unfoldable pub try_acquire : RateLimiter → ℕ → RateLimiter × Bool
try_acquire l now =
    if would_exceed l now
    then (l, false)
    else (record l { timestamps = pruned l.sustained.duration now (now ∷ l.timestamps) }, true)

unfoldable pub stats : RateLimiter → ℕ → RateLimiterStats
stats l now = record {
  burst_count = u32 (count_while (λ t. ltb (now - t) l.burst.duration) l.timestamps);
  burst_limit = l.burst.max_requests;
  burst_window = l.burst.duration;
  sustained_count = u32 (length l.timestamps);
  sustained_limit = l.sustained.max_requests;
  sustained_window = l.sustained.duration;
}
