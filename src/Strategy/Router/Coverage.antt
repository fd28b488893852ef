-- ===== src/Strategy/Router/Coverage.antt =====
-- What stands for each intent that `resolve_conflicts` drops, and that no grouped intent is dropped.
use poly_bot.Prelude.{
  ◌≡◌, refl, ℕ, Bool, true, false, ◌&&◌, ◌||◌, List, [], ◌∷◌, All, any, filter, leb, ltb, ◌==◌, ◌∙◌,
  if◌then◌else◌, arith, Bool-cases, inl, inr,
}
use poly_bot.Strategy.Traits.{OrderIntent, is_grouped}
use poly_bot.Strategy.Router.Conflicts.{
  ConflictKey, key_of, sort_in, by_priority, has_seen, is_dropped, kept, resolve_conflicts,
}
use poly_bot.Strategy.Router.Resolution.{
  key_eq_refl, rivals, is_descending, by_priority-descending, is_dropped_lem,
}

-- `x` stands for `y`: the same market, token and side, at no lower priority.
abbrev pub outranks : OrderIntent → OrderIntent → Bool
outranks y x = rivals x y && leb y.priority x.priority

-- Every intent of the sorted list has its key seen, or one kept that outranks it.
abbrev pub are_covered : List ConflictKey → (by of : List OrderIntent) → Bool
are_covered seen by [] = true
are_covered seen by (y ∷ ys) = (has_seen seen y || any (outranks y) by) && are_covered seen by ys

covers_step :
    (x : OrderIntent) (seen : List ConflictKey) (by ys : List OrderIntent)
    → any (λ (y : OrderIntent). ltb x.priority y.priority) ys ≡ false
    → are_covered (key_of x ∷ seen) by ys ≡ true
    → are_covered seen (x ∷ by) ys ≡ true
unfolding has_seen
covers_step x seen by [] h c = refl
covers_step x seen by (y ∷ ys) h c = ground (arith, covers_step x seen by ys)

covers_more :
    (x : OrderIntent) (seen : List ConflictKey) (by ys : List OrderIntent)
    → are_covered seen by ys ≡ true
    → are_covered seen (x ∷ by) ys ≡ true
covers_more x seen by [] c = refl
covers_more x seen by (y ∷ ys) c = ground (arith, covers_more x seen by ys)

kept-covers :
    (seen : List ConflictKey) (xs : List OrderIntent)
    → is_descending xs ≡ true
    → are_covered seen (kept seen xs) xs ≡ true
unfolding kept
kept-covers seen [] h = refl
kept-covers seen (x ∷ xs) h = elim (Bool-cases (is_dropped seen x)) [
  | inl drop ↦ ground (arith, kept-covers seen xs, is_dropped_lem seen x)
  | inr keep ↦
      let later = covers_step x seen (kept (key_of x ∷ seen) xs) xs in
      ground (arith, kept-covers (key_of x ∷ seen) xs, later, key_eq_refl (key_of x))
]

are_covered-sort_in :
    (by : List OrderIntent) (x : OrderIntent) (xs : List OrderIntent)
    → are_covered [] by (sort_in x xs) ≡ (any (outranks x) by && are_covered [] by xs)
unfolding sort_in has_seen
are_covered-sort_in by x [] = ground arith
are_covered-sort_in by x (y ∷ ys) = ground (arith, are_covered-sort_in by x ys)

covers-All :
    (by xs : List OrderIntent)
    → are_covered [] by (by_priority xs) ≡ true
    → All (λ y. any (outranks y) by ≡ true) xs
unfolding by_priority
covers-All by [] h = tt
covers-All by (x ∷ xs) h =
    let split = are_covered-sort_in by x (by_priority xs) in
    (ground (arith, split), covers-All by xs (ground (arith, split)))

-- For every intent that is passed in, the router keeps one for the same market, token and side of
-- at least its priority.
pub resolve_conflicts-covers :
    (intents : List OrderIntent)
    → All (λ y. any (outranks y) (resolve_conflicts intents) ≡ true) intents
unfolding resolve_conflicts
resolve_conflicts-covers intents =
    covers-All (kept [] (by_priority intents)) intents
      (kept-covers [] (by_priority intents) (by_priority-descending intents))

-- an intent of a group at the priority `p`
abbrev pub is_grouped_at : ℕ → OrderIntent → Bool
is_grouped_at p x = is_grouped x && x.priority == p

grouped-sort_in :
    (p : ℕ) (x : OrderIntent) (xs : List OrderIntent)
    → filter (is_grouped_at p) (sort_in x xs) ≡ filter (is_grouped_at p) (x ∷ xs)
unfolding sort_in
grouped-sort_in p x [] = refl
grouped-sort_in p x (y ∷ ys) = ground (arith, grouped-sort_in p x ys)

grouped-by_priority :
    (p : ℕ) (xs : List OrderIntent)
    → filter (is_grouped_at p) (by_priority xs) ≡ filter (is_grouped_at p) xs
unfolding by_priority
grouped-by_priority p [] = refl
grouped-by_priority p (x ∷ xs) =
    ground (arith, grouped-sort_in p x (by_priority xs), grouped-by_priority p xs)

grouped-kept :
    (p : ℕ) (seen : List ConflictKey) (xs : List OrderIntent)
    → filter (is_grouped_at p) (kept seen xs) ≡ filter (is_grouped_at p) xs
unfolding kept is_dropped
grouped-kept p seen [] = refl
grouped-kept p seen (x ∷ xs) =
    let seen' = if is_dropped seen x then seen else key_of x ∷ seen in
    ground (arith, grouped-kept p seen' xs)

-- No intent of a group is dropped: of each priority, the router keeps the grouped intents that are
-- passed in, in their order.
pub grouped-resolve_conflicts :
    (p : ℕ) (intents : List OrderIntent)
    → filter (is_grouped_at p) (resolve_conflicts intents) ≡ filter (is_grouped_at p) intents
unfolding resolve_conflicts
grouped-resolve_conflicts p intents =
    grouped-kept p [] (by_priority intents) ∙ grouped-by_priority p intents
