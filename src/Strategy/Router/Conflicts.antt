-- ===== src/Strategy/Router/Conflicts.antt =====
-- src/strategy/router.rs: `resolve_conflicts`, a stable sort by priority and one pass over it.
use poly_bot.Prelude.{Bool, not, ◌&&◌, List, [], ◌∷◌, any, ltb, ◌==◌, if◌then◌else◌}
use poly_bot.Types.{Key, Side, side_eq}
use poly_bot.Strategy.Traits.{OrderIntent, is_grouped}

-- market, token and side
abbrev pub ConflictKey : Type 0
ConflictKey = Key × Key × Side

abbrev pub key_of : OrderIntent → ConflictKey
key_of x = (x.market_id, x.token_id, x.side)

unfoldable pub key_eq : ConflictKey → ConflictKey → Bool
key_eq (m, t, s) (m', t', s') = m == m' && t == t' && side_eq s s'

-- `sort_by` on `b.priority.cmp(&a.priority)`, which is stable: an intent goes before the first that
-- has no higher priority.
unfoldable pub sort_in : OrderIntent → List OrderIntent → List OrderIntent
sort_in x [] = x ∷ []
sort_in x (y ∷ ys) =
    let rest = sort_in x ys in if ltb x.priority y.priority then y ∷ rest else x ∷ y ∷ ys

unfoldable pub by_priority : List OrderIntent → List OrderIntent
by_priority [] = []
by_priority (x ∷ xs) = sort_in x (by_priority xs)

unfoldable pub has_seen : List ConflictKey → OrderIntent → Bool
has_seen seen x = any (λ k. key_eq k (key_of x)) seen

unfoldable pub is_dropped : List ConflictKey → OrderIntent → Bool
is_dropped seen x = not (is_grouped x) && has_seen seen x

-- the loop over the sorted intents
unfoldable pub kept : List ConflictKey → List OrderIntent → List OrderIntent
kept seen [] = []
kept seen (x ∷ xs) =
    let dropped = is_dropped seen x in
    let rest = kept (if dropped then seen else key_of x ∷ seen) xs in
    if dropped then rest else x ∷ rest

unfoldable pub resolve_conflicts : List OrderIntent → List OrderIntent
resolve_conflicts intents = kept [] (by_priority intents)
