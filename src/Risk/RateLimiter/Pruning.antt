-- ===== src/Risk/RateLimiter/Pruning.antt =====
-- The recorded requests of a window: counting from the newest, and forgetting the oldest.
use poly_bot.Prelude.{
  ℕ, suc, ◌≤◌, ◌≡◌, refl, true, false, List, [], ◌∷◌, All, length, filter, arith,
}
use poly_bot.Risk.RateLimiter.{count_while, is_recent, keep_newer, pruned}

-- Every recorded request is at most as late as `now`, and each as late as those recorded before it.
abbrev pub IsSorted : ℕ → List ℕ → Type 0
IsSorted now [] = Unit
IsSorted now (t ∷ ts) = (t ≤ now) × IsSorted t ts

-- The recorded requests within a window that ends now.
abbrev pub recent : (duration now : ℕ) → List ℕ → ℕ
recent duration now ts = length (filter (is_recent duration now) ts)

recent_old :
    (d now t : ℕ) (ts : List ℕ) → is_recent d now t ≡ false → IsSorted t ts → recent d now ts ≡ 0
recent_old d now t [] h s = refl
recent_old d now t (u ∷ us) h s = ground (arith, recent_old d now u us)

-- Looking only at the newest, up to the first that is too old, finds all of the window.
pub count_while-recent :
    (d now m : ℕ) (ts : List ℕ) → IsSorted m ts → count_while (is_recent d now) ts ≡ recent d now ts
count_while-recent d now m [] s = refl
count_while-recent d now m (t ∷ ts) s =
    ground (arith, recent_old d now t ts, count_while-recent d now t ts s.1)

pub IsSorted-later : (a b : ℕ) (ts : List ℕ) → a ≤ b → IsSorted a ts → IsSorted b ts
IsSorted-later a b [] h s = tt
IsSorted-later a b (t ∷ ts) h s = ground arith

length-keep_newer : (d now t : ℕ) (ts : List ℕ) → length (keep_newer d now t ts) ≤ suc (length ts)
length-keep_newer d now t [] = ground arith
length-keep_newer d now t (u ∷ us) = omega arith

pub length-pruned : (d now : ℕ) (ts : List ℕ) → length (pruned d now ts) ≤ length ts
unfolding pruned
length-pruned d now [] = omega arith
length-pruned d now (t ∷ ts) =
    omega (arith, length-keep_newer d now t (pruned d now ts), length-pruned d now ts)

recent-keep_newer :
    (d e now t : ℕ) (ts : List ℕ) → recent e now (keep_newer d now t ts) ≤ recent e now (t ∷ ts)
recent-keep_newer d e now t [] = ground arith
recent-keep_newer d e now t (u ∷ us) = omega arith

recent_mono :
    (e now t : ℕ) (ts us : List ℕ)
    → recent e now ts ≤ recent e now us
    → recent e now (t ∷ ts) ≤ recent e now (t ∷ us)
recent_mono e now t ts us h = ground arith

pub recent-pruned : (d e now : ℕ) (ts : List ℕ) → recent e now (pruned d now ts) ≤ recent e now ts
unfolding pruned
recent-pruned d e now [] = omega arith
recent-pruned d e now (t ∷ ts) = omega (
  arith,
  recent-keep_newer d e now t (pruned d now ts),
  recent_mono e now t (pruned d now ts) ts (recent-pruned d e now ts),
)

keep_newer-IsSorted :
    (d now m t : ℕ) (ts : List ℕ) → t ≤ m → IsSorted t ts → IsSorted m (keep_newer d now t ts)
keep_newer-IsSorted d now m t [] h s = ground arith
keep_newer-IsSorted d now m t (u ∷ us) h s = ground arith

pub pruned-IsSorted : (d now m : ℕ) (ts : List ℕ) → IsSorted m ts → IsSorted m (pruned d now ts)
unfolding pruned
pruned-IsSorted d now m [] s = tt
pruned-IsSorted d now m (t ∷ ts) s =
    keep_newer-IsSorted d now m t (pruned d now ts) s.0 (pruned-IsSorted d now t ts s.1)

keep_newer_recent :
    (d now t : ℕ) (ts : List ℕ)
    → IsSorted t ts
    → All (λ u. is_recent d now u ≡ true) ts
    → All (λ u. is_recent d now u ≡ true) (keep_newer d now t ts)
keep_newer_recent d now t [] s h = ground arith
keep_newer_recent d now t (u ∷ us) s h = ground arith

pub pruned_recent :
    (d now m : ℕ) (ts : List ℕ)
    → IsSorted m ts
    → All (λ t. is_recent d now t ≡ true) (pruned d now ts)
unfolding pruned
pruned_recent d now m [] s = tt
pruned_recent d now m (t ∷ ts) s =
    keep_newer_recent d now t (pruned d now ts) (pruned-IsSorted d now t ts s.1)
      (pruned_recent d now t ts s.1)
