-- ===== src/Strategy/MarketPair/Complements.antt =====
-- Complements, and the removal of a market, in the registries that registrations lead to.
use poly_bot.Prelude.{
  ◌≡◌, ◌∙◌, true, false, Option, none, some, arith, ◌==◌, if◌then◌else◌, inl, inr, Option-cases,
}
use poly_bot.Prelude.Dict.{lookup, lookup-erase}
use poly_bot.Types.{Key}
use poly_bot.Strategy.MarketPair.{
  MarketPair, MarketPairRegistry, complement, contains_token, unregister, get_by_token,
  get_by_condition, get_complement,
}
use poly_bot.Strategy.MarketPair.Indices.{
  IsCoherent, IsReached, IsReached-IsCoherent, lookup_removed,
}

complement_of_pair :
    (p : MarketPair) (k j : Key)
    → (p.yes_token_id == p.no_token_id) ≡ false
    → complement p k ≡ some j
    → (complement p j ≡ some k) × ((j == k) ≡ false) × (contains_token p j ≡ true)
unfolding complement contains_token
complement_of_pair p k j d e = ground arith

-- In a registry that registrations of new markets and removals lead to, a complement is another
-- token, whose complement is the first again.
pub complement_involutive :
    (r : MarketPairRegistry) (k j : Key)
    → IsReached r
    → get_complement r k ≡ some j
    → (get_complement r j ≡ some k) × ((j == k) ≡ false)
unfolding get_complement contains_token
complement_involutive r k j h e =
    let c = IsReached-IsCoherent r h in
    elim (Option-cases (lookup k r.by_token)) [
      | inl missing ↦ ground arith
      | inr (p, found) ↦
          let at = c.token_has_condition k p found in
          ground (
            arith,
            complement_of_pair p k j (c.tokens_differ p.condition_id p at),
            c.has_yes p.condition_id p at,
            c.has_no p.condition_id p at,
          )
    ]

-- An entry by token, unless it is of the market that is removed.
abbrev pub kept : Key → Option MarketPair → Option MarketPair
kept c none = none
kept c (some p) = if p.condition_id == c then none else some p

token_removed :
    (r : MarketPairRegistry) (c k : Key) (p : MarketPair)
    → IsCoherent r
    → lookup c r.by_condition ≡ some p
    → (if p.no_token_id == k
        then none
        else if p.yes_token_id == k
        then none
        else lookup k r.by_token)
      ≡ kept c (lookup k r.by_token)
unfolding contains_token
token_removed r c k p h found = elim (Option-cases (lookup k r.by_token)) [
  | inl missing ↦ ground arith
  | inr (q, at) ↦ ground (
    arith,
    h.token_has_condition k q at,
    h.token_in_pair k q at,
    h.own_condition c p found,
    h.has_yes c p found,
    h.has_no c p found,
  )
]

token_unknown :
    (r : MarketPairRegistry) (c k : Key)
    → IsCoherent r
    → lookup c r.by_condition ≡ none
    → lookup k r.by_token ≡ kept c (lookup k r.by_token)
token_unknown r c k h missing = elim (Option-cases (lookup k r.by_token)) [
  | inl none_at ↦ ground arith
  | inr (q, at) ↦ ground (arith, h.token_has_condition k q at)
]

-- Removing a market removes it from both indices, and no other market from either.
pub unregister_lem :
    (r : MarketPairRegistry) (c k : Key)
    → IsReached r
    → (get_by_condition (unregister r c) k ≡ (if c == k then none else get_by_condition r k))
      × (get_by_token (unregister r c) k ≡ kept c (get_by_token r k))
unfolding get_by_condition get_by_token unregister
unregister_lem r c k h =
    let coherent = IsReached-IsCoherent r h in
    elim (Option-cases (lookup c r.by_condition)) [
      | inl missing ↦ rw (missing, unregister) (ground arith, token_unknown r c k coherent missing)
      | inr (p, found) ↦
          rw (found, unregister)
            (
              lookup-erase c k r.by_condition,
              lookup_removed k p.yes_token_id p.no_token_id r.by_token
                  ∙ token_removed r c k p coherent found,
            )
    ]
