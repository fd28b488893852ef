-- ===== src/Strategy/MarketPair/Indices.antt =====
-- The two indices of the registry, after any registrations and removals.
use poly_bot.Prelude.{
  ◌≡◌, true, false, none, some, arith, ◌==◌, if◌then◌else◌, inl, inr, Option-cases,
}
use poly_bot.Prelude.Dict.{Dict, lookup, insert, erase, lookup-insert, lookup-erase}
use poly_bot.Types.{Key}
use poly_bot.Strategy.MarketPair.{
  MarketPair, MarketPairRegistry, contains_token, empty_registry, register, unregister,
}

-- Each entry by token is the pair that stands under its condition, and contains the token; each
-- pair stands under its own condition, and under both its tokens, which differ.
pub record IsCoherent (r : MarketPairRegistry) : Type 0 where
  pub token_has_condition :
      (k : Key) (p : MarketPair)
      → lookup k r.by_token ≡ some p
      → lookup p.condition_id r.by_condition ≡ some p
  pub token_in_pair :
      (k : Key) (p : MarketPair) → lookup k r.by_token ≡ some p → contains_token p k ≡ true
  pub own_condition :
      (c : Key) (p : MarketPair) → lookup c r.by_condition ≡ some p → p.condition_id ≡ c
  pub has_yes :
      (c : Key) (p : MarketPair)
      → lookup c r.by_condition ≡ some p
      → lookup p.yes_token_id r.by_token ≡ some p
  pub has_no :
      (c : Key) (p : MarketPair)
      → lookup c r.by_condition ≡ some p
      → lookup p.no_token_id r.by_token ≡ some p
  pub tokens_differ :
      (c : Key) (p : MarketPair)
      → lookup c r.by_condition ≡ some p
      → (p.yes_token_id == p.no_token_id) ≡ false

empty-IsCoherent : IsCoherent empty_registry
unfolding empty_registry
empty-IsCoherent = record {
  token_has_condition = λ k p e. cc;
  token_in_pair = λ k p e. cc;
  own_condition = λ c p e. cc;
  has_yes = λ c p e. cc;
  has_no = λ c p e. cc;
  tokens_differ = λ c p e. cc;
}

-- The market is not registered, and neither is a token of it.
pub record IsFresh (r : MarketPairRegistry) (p : MarketPair) : Type 0 where
  pub condition_free : lookup p.condition_id r.by_condition ≡ none
  pub yes_free : lookup p.yes_token_id r.by_token ≡ none
  pub no_free : lookup p.no_token_id r.by_token ≡ none
  pub differ : (p.yes_token_id == p.no_token_id) ≡ false

lookup_registered :
    (k : Key) (p : MarketPair) (m : Dict MarketPair)
    → lookup k (insert p.no_token_id p (insert p.yes_token_id p m))
      ≡ (if p.no_token_id == k then some p else if p.yes_token_id == k then some p else lookup k m)
lookup_registered k p m = ground (
  arith,
  lookup-insert p.no_token_id k p (insert p.yes_token_id p m),
  lookup-insert p.yes_token_id k p m,
)

pub lookup_removed :
    (k y n : Key) (m : Dict MarketPair)
    → lookup k (erase n (erase y m))
      ≡ (if n == k then none else if y == k then none else lookup k m)
lookup_removed k y n m = ground (arith, lookup-erase n k (erase y m), lookup-erase y k m)

register-IsCoherent :
    (r : MarketPairRegistry) (p : MarketPair)
    → IsFresh r p
    → IsCoherent r
    → IsCoherent (register r p)
unfolding register contains_token
register-IsCoherent r p f h = record {
  token_has_condition = λ k q e. ground (
    arith,
    lookup_registered k p r.by_token,
    h.token_has_condition k q,
    f,
    lookup-insert p.condition_id q.condition_id p r.by_condition,
  );
  token_in_pair = λ k q e. ground (arith, lookup_registered k p r.by_token, h.token_in_pair k q, f);
  own_condition =
      λ c q e. ground (arith, lookup-insert p.condition_id c p r.by_condition, h.own_condition c q);
  has_yes = λ c q e. ground (
    arith,
    lookup-insert p.condition_id c p r.by_condition,
    h.has_yes c q,
    f,
    lookup_registered q.yes_token_id p r.by_token,
  );
  has_no = λ c q e. ground (
    arith,
    lookup-insert p.condition_id c p r.by_condition,
    h.has_no c q,
    f,
    lookup_registered q.no_token_id p r.by_token,
  );
  tokens_differ = λ c q e.
      ground (arith, lookup-insert p.condition_id c p r.by_condition, h.tokens_differ c q, f);
}

unregister-IsCoherent :
    (r : MarketPairRegistry) (c : Key) → IsCoherent r → IsCoherent (unregister r c)
unfolding unregister contains_token
unregister-IsCoherent r c h = elim (Option-cases (lookup c r.by_condition)) [
  | inl missing ↦ rw (missing, unregister) h
  | inr (p, found) ↦
      rw (found, unregister)
        (record {
          token_has_condition = λ k q e. ground (
            arith,
            lookup_removed k p.yes_token_id p.no_token_id r.by_token,
            h.token_has_condition k q,
            h.token_in_pair k q,
            lookup-erase c q.condition_id r.by_condition,
            found,
          );
          token_in_pair = λ k q e. ground (
            arith,
            lookup_removed k p.yes_token_id p.no_token_id r.by_token,
            h.token_in_pair k q,
          );
          own_condition =
              λ d q e. ground (arith, lookup-erase c d r.by_condition, h.own_condition d q);
          has_yes = λ d q e. ground (
            arith,
            lookup-erase c d r.by_condition,
            h.has_yes d q,
            h.own_condition d q,
            h.has_yes c p found,
            h.has_no c p found,
            h.own_condition c p found,
            lookup_removed q.yes_token_id p.yes_token_id p.no_token_id r.by_token,
          );
          has_no = λ d q e. ground (
            arith,
            lookup-erase c d r.by_condition,
            h.has_no d q,
            h.own_condition d q,
            h.has_yes c p found,
            h.has_no c p found,
            h.own_condition c p found,
            lookup_removed q.no_token_id p.yes_token_id p.no_token_id r.by_token,
          );
          tokens_differ =
              λ d q e. ground (arith, lookup-erase c d r.by_condition, h.tokens_differ d q);
        })
]

-- The registries that registrations of new markets and removals lead to.
pub data IsReached : MarketPairRegistry → Type 0 where
  at_start : IsReached empty_registry
  registered :
      {r : MarketPairRegistry} (p : MarketPair)
      → IsFresh r p
      → IsReached r
      → IsReached (register r p)
  unregistered : {r : MarketPairRegistry} (c : Key) → IsReached r → IsReached (unregister r c)

-- After any registrations of new markets with two different new tokens, and any removals, each
-- token leads to the registered pair that contains it, and each registered pair is found by its
-- condition and both tokens.
pub IsReached-IsCoherent : (r : MarketPairRegistry) → IsReached r → IsCoherent r
IsReached-IsCoherent _ at_start = empty-IsCoherent
IsReached-IsCoherent _ (registered {r} p f h) = register-IsCoherent r p f (IsReached-IsCoherent r h)
IsReached-IsCoherent _ (unregistered {r} c h) = unregister-IsCoherent r c (IsReached-IsCoherent r h)
