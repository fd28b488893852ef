-- ===== src/Risk/RateLimiter/Windows.antt =====
-- What the rate limiter guarantees of the requests that it grants.
use poly_bot.Prelude.{
  ℕ, ◌≤◌, ◌<◌, ◌≡◌, sym, Bool, true, false, ◌&&◌, ◌||◌, List, [], ◌∷◌, All, length, length-filter,
  arith, ltb, leb, if◌then◌else◌, Bool-cases, inl, inr,
}
use poly_bot.Risk.RateLimiter.{RateLimiter, limit_of, is_recent, would_exceed, pruned, try_acquire}
use poly_bot.Risk.RateLimiter.Pruning.{
  IsSorted, recent, count_while-recent, IsSorted-later, length-pruned, recent-pruned,
  pruned-IsSorted, pruned_recent,
}

-- Between two calls: the requests are in order, and no more than the long window admits, in a
-- counter of 32 bits.
pub record IsValid (now : ℕ) (l : RateLimiter) : Type 0 where
  pub in_order : IsSorted now l.timestamps
  pub within_limit : length l.timestamps ≤ limit_of l.sustained l.threshold
  pub limit_fits : limit_of l.sustained l.threshold < 4294967296

would_exceed_lem :
    (l : RateLimiter) (now : ℕ)
    → IsValid now l
    → would_exceed l now ≡ (
        leb (limit_of l.burst l.threshold) (recent l.burst.duration now l.timestamps)
        || leb (limit_of l.sustained l.threshold) (length l.timestamps))
unfolding would_exceed
would_exceed_lem l now v = ground (
  arith,
  count_while-recent l.burst.duration now now l.timestamps v.in_order,
  length-filter (is_recent l.burst.duration now) l.timestamps,
)

refused_lem :
    (l : RateLimiter) (now : ℕ)
    → IsValid now l
    → would_exceed l now ≡ true
    → ((try_acquire l now).1 ≡ (
        ltb (recent l.burst.duration now l.timestamps) (limit_of l.burst l.threshold)
        && ltb (length l.timestamps) (limit_of l.sustained l.threshold)))
      × (if (try_acquire l now).1
          then (recent l.burst.duration now (try_acquire l now).0.timestamps
              ≤ limit_of l.burst l.threshold)
            × All
                (λ t. is_recent l.sustained.duration now t ≡ true)
                (try_acquire l now).0.timestamps
          else (try_acquire l now).0 ≡ l)
unfolding try_acquire
refused_lem l now v e = ground (arith, would_exceed_lem l now v)

recent_granted :
    (l : RateLimiter) (now : ℕ)
    → recent l.burst.duration now l.timestamps < limit_of l.burst l.threshold
    → recent l.burst.duration now (pruned l.sustained.duration now (now ∷ l.timestamps))
      ≤ limit_of l.burst l.threshold
recent_granted l now h =
    ground (arith, recent-pruned l.sustained.duration l.burst.duration now (now ∷ l.timestamps))

rooms_granted :
    (l : RateLimiter) (now : ℕ)
    → IsValid now l
    → would_exceed l now ≡ false
    → (ltb (recent l.burst.duration now l.timestamps) (limit_of l.burst l.threshold)
        && ltb (length l.timestamps) (limit_of l.sustained l.threshold))
      ≡ true
rooms_granted l now v e = ground (arith, would_exceed_lem l now v)

granted_lem :
    (l : RateLimiter) (now : ℕ)
    → IsValid now l
    → would_exceed l now ≡ false
    → ((try_acquire l now).1 ≡ (
        ltb (recent l.burst.duration now l.timestamps) (limit_of l.burst l.threshold)
        && ltb (length l.timestamps) (limit_of l.sustained l.threshold)))
      × (if (try_acquire l now).1
          then (recent l.burst.duration now (try_acquire l now).0.timestamps
              ≤ limit_of l.burst l.threshold)
            × All
                (λ t. is_recent l.sustained.duration now t ≡ true)
                (try_acquire l now).0.timestamps
          else (try_acquire l now).0 ≡ l)
unfolding try_acquire
granted_lem l now v e =
    let r =
      pruned_recent l.sustained.duration now now (now ∷ l.timestamps) (omega arith, v.in_order) in
    let below = rooms_granted l now v e in
    rw e (sym below, (recent_granted l now (ground (arith, below)), r))

-- A request is granted exactly when fewer than the limits are recorded in the short window and in
-- all; if not it changes nothing; if so the short window stays within its limit and only requests
-- of the long window stay recorded, in a limiter whose requests are in order and within the long
-- limit.
pub try_acquire_lem :
    (l : RateLimiter) (now : ℕ)
    → IsValid now l
    → ((try_acquire l now).1 ≡ (
        ltb (recent l.burst.duration now l.timestamps) (limit_of l.burst l.threshold)
        && ltb (length l.timestamps) (limit_of l.sustained l.threshold)))
      × (if (try_acquire l now).1
          then (recent l.burst.duration now (try_acquire l now).0.timestamps
              ≤ limit_of l.burst l.threshold)
            × All
                (λ t. is_recent l.sustained.duration now t ≡ true)
                (try_acquire l now).0.timestamps
          else (try_acquire l now).0 ≡ l)
try_acquire_lem l now v = elim (Bool-cases (would_exceed l now)) [
  | inl e ↦ refused_lem l now v e
  | inr e ↦ granted_lem l now v e
]

try_acquire-IsValid :
    (l : RateLimiter) (now : ℕ) → IsValid now l → IsValid now (try_acquire l now).0
unfolding try_acquire
try_acquire-IsValid l now v =
    let p =
      pruned-IsSorted l.sustained.duration now now (now ∷ l.timestamps) (omega arith, v.in_order) in
    ground (
      arith,
      would_exceed_lem l now v,
      p,
      length-pruned l.sustained.duration now (now ∷ l.timestamps),
    )

-- Requests at the times of a list.
unfoldable pub acquire_all : RateLimiter → List ℕ → RateLimiter
acquire_all l [] = l
acquire_all l (now ∷ ts) = acquire_all (try_acquire l now).0 ts

IsValid-later : (a b : ℕ) (l : RateLimiter) → a ≤ b → IsValid a l → IsValid b l
IsValid-later a b l h v = record {
  in_order = IsSorted-later a b l.timestamps h v.in_order;
  within_limit = v.within_limit;
  limit_fits = v.limit_fits;
}

abbrev pub is_ordered : ℕ → List ℕ → Bool
is_ordered start [] = true
is_ordered start (now ∷ ts) = leb start now && is_ordered now ts

abbrev pub end_of : ℕ → List ℕ → ℕ
end_of start [] = start
end_of start (now ∷ ts) = end_of now ts

ordered_head :
    (a b : ℕ) (ts : List ℕ) → is_ordered a (b ∷ ts) ≡ true → (a ≤ b) × (is_ordered b ts ≡ true)
ordered_head a b ts h = ground arith

-- Whatever requests come, in the order of time, the recorded ones stay in order and within the
-- limit of the long window.
pub acquire_all-IsValid :
    (ts : List ℕ) (start : ℕ) (l : RateLimiter)
    → IsValid start l
    → is_ordered start ts ≡ true
    → IsValid (end_of start ts) (acquire_all l ts)
unfolding acquire_all
acquire_all-IsValid [] start l v h = v
acquire_all-IsValid (now ∷ ts) start l v h =
    let (g, h') = ordered_head start now ts h in
    acquire_all-IsValid ts now (try_acquire l now).0
      (try_acquire-IsValid l now (IsValid-later start now l g v)) h'
