-- ===== src/Strategy/Router/Resolution.antt =====
-- What `resolve_conflicts` keeps is sorted by priority and free of conflicts.
use poly_bot.Prelude.{
  ◌≡◌, refl, ℕ, Bool, true, false, not, ◌&&◌, ◌||◌, List, [], ◌∷◌, any, leb, ltb, if◌then◌else◌,
  arith, Bool-cases, inl, inr,
}
use poly_bot.Types.{buy, sell}
use poly_bot.Strategy.Traits.{OrderIntent, is_grouped}
use poly_bot.Strategy.Router.Conflicts.{
  ConflictKey, key_of, key_eq, sort_in, by_priority, has_seen, is_dropped, kept, resolve_conflicts,
}

pub key_eq_refl : (k : ConflictKey) → key_eq k k ≡ true
unfolding key_eq
key_eq_refl (m, t, buy) = ground arith
key_eq_refl (m, t, sell) = ground arith

key_eq_sym : (k l : ConflictKey) → key_eq k l ≡ true → key_eq l k ≡ true
unfolding key_eq
key_eq_sym (m, t, buy) (m', t', buy) h = ground arith
key_eq_sym (m, t, sell) (m', t', sell) h = ground arith
key_eq_sym (m, t, buy) (m', t', sell) h = ground arith
key_eq_sym (m, t, sell) (m', t', buy) h = ground arith

key_eq_trans : (k l m : ConflictKey) → key_eq k l ≡ true → key_eq l m ≡ true → key_eq k m ≡ true
unfolding key_eq
key_eq_trans (a, b, buy) (c, d, buy) (e, f, buy) h i = ground arith
key_eq_trans (a, b, sell) (c, d, sell) (e, f, sell) h i = ground arith
key_eq_trans (a, b, buy) (c, d, buy) (e, f, sell) h i = ground arith
key_eq_trans (a, b, sell) (c, d, sell) (e, f, buy) h i = ground arith
key_eq_trans (a, b, buy) (c, d, sell) (e, f, s) h i = ground arith
key_eq_trans (a, b, sell) (c, d, buy) (e, f, s) h i = ground arith

-- Two intents for the same market, token and side.
abbrev pub rivals : OrderIntent → OrderIntent → Bool
rivals x y = key_eq (key_of x) (key_of y)

-- No intent outside a group follows one for the same market, token and side.
abbrev pub is_conflict_free : List OrderIntent → Bool
is_conflict_free [] = true
is_conflict_free (x ∷ xs) =
    not (any (λ y. not (is_grouped y) && rivals x y) xs) && is_conflict_free xs

abbrev pub is_descending : List OrderIntent → Bool
is_descending [] = true
is_descending (x ∷ xs) =
    not (any (λ (y : OrderIntent). ltb x.priority y.priority) xs) && is_descending xs

any-sort_in :
    (p : OrderIntent → Bool) (x : OrderIntent) (xs : List OrderIntent)
    → any p (sort_in x xs) ≡ (p x || any p xs)
unfolding sort_in
any-sort_in p x [] = ground arith
any-sort_in p x (y ∷ ys) = ground (arith, any-sort_in p x ys)

none_above :
    (a b : ℕ) (xs : List OrderIntent)
    → leb a b ≡ true
    → any (λ (y : OrderIntent). ltb a y.priority) xs ≡ false
    → any (λ (y : OrderIntent). ltb b y.priority) xs ≡ false
none_above a b [] h k = refl
none_above a b (x ∷ xs) h k = ground (arith, none_above a b xs)

sort_in-descending :
    (x : OrderIntent) (xs : List OrderIntent)
    → is_descending xs ≡ true
    → is_descending (sort_in x xs) ≡ true
unfolding sort_in
sort_in-descending x [] h = refl
sort_in-descending x (y ∷ ys) h = ground (
  arith,
  sort_in-descending x ys,
  none_above y.priority x.priority ys,
  any-sort_in (λ (z : OrderIntent). ltb y.priority z.priority) x ys,
)

pub by_priority-descending : (xs : List OrderIntent) → is_descending (by_priority xs) ≡ true
unfolding by_priority
by_priority-descending [] = refl
by_priority-descending (x ∷ xs) = sort_in-descending x (by_priority xs) (by_priority-descending xs)

any-kept :
    (p : OrderIntent → Bool) (seen : List ConflictKey) (xs : List OrderIntent)
    → any p xs ≡ false
    → any p (kept seen xs) ≡ false
unfolding kept
any-kept p seen [] h = refl
any-kept p seen (x ∷ xs) h =
    ground (arith, any-kept p (if is_dropped seen x then seen else key_of x ∷ seen) xs)

kept-descending :
    (seen : List ConflictKey) (xs : List OrderIntent)
    → is_descending xs ≡ true
    → is_descending (kept seen xs) ≡ true
unfolding kept
kept-descending seen [] h = refl
kept-descending seen (x ∷ xs) h =
    let seen' = if is_dropped seen x then seen else key_of x ∷ seen in
    ground (
      arith,
      kept-descending seen' xs,
      any-kept (λ (y : OrderIntent). ltb x.priority y.priority) seen' xs,
    )

pub is_dropped_lem :
    (seen : List ConflictKey) (x : OrderIntent)
    → is_dropped seen x ≡ (not (is_grouped x) && has_seen seen x)
unfolding is_dropped
is_dropped_lem seen x = refl

-- A seen key marks every intent of that key as seen.
seen_of_eq :
    (k : ConflictKey) (seen : List ConflictKey) (x : OrderIntent)
    → any (λ l. key_eq l k) seen ≡ true
    → key_eq k (key_of x) ≡ true
    → has_seen seen x ≡ true
unfolding has_seen
seen_of_eq k [] x h e = cc
seen_of_eq k (l ∷ seen) x h e = ground (arith, seen_of_eq k seen x, key_eq_trans l k (key_of x))

any_or : {A : Type 0} (p : A → Bool) (x : A) (xs : List A) → any p xs ≡ true → any p (x ∷ xs) ≡ true
any_or p x xs h = ground arith

-- Once a key is seen, what is kept for it is grouped.
kept-avoids :
    (k : ConflictKey) (seen : List ConflictKey) (xs : List OrderIntent)
    → any (λ l. key_eq l k) seen ≡ true
    → any (λ y. not (is_grouped y) && key_eq k (key_of y)) (kept seen xs) ≡ false
unfolding kept
kept-avoids k seen [] h = refl
kept-avoids k seen (x ∷ xs) h = elim (Bool-cases (is_dropped seen x)) [
  | inl drop ↦ ground (arith, kept-avoids k seen xs)
  | inr keep ↦
      let later = kept-avoids k (key_of x ∷ seen) xs (ground arith) in
      ground (arith, later, seen_of_eq k seen x, is_dropped_lem seen x)
]

kept-conflict_free :
    (seen : List ConflictKey) (xs : List OrderIntent) → is_conflict_free (kept seen xs) ≡ true
unfolding kept
kept-conflict_free seen [] = refl
kept-conflict_free seen (x ∷ xs) = elim (Bool-cases (is_dropped seen x)) [
  | inl drop ↦ ground (arith, kept-conflict_free seen xs)
  | inr keep ↦
      let later =
        kept-avoids (key_of x) (key_of x ∷ seen) xs (ground (arith, key_eq_refl (key_of x))) in
      ground (arith, later, kept-conflict_free (key_of x ∷ seen) xs)
]

-- What the router passes on is sorted by falling priority, and no intent outside a group follows
-- one for the same market, token and side.
pub resolve_conflicts_lem :
    (intents : List OrderIntent)
    → (is_descending (resolve_conflicts intents) ≡ true)
      × (is_conflict_free (resolve_conflicts intents) ≡ true)
unfolding resolve_conflicts
resolve_conflicts_lem intents = (
  kept-descending [] (by_priority intents) (by_priority-descending intents),
  kept-conflict_free [] (by_priority intents),
)
