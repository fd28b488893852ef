-- ===== src/Strategy/Router/Registration.antt =====
-- Registering, enabling and unregistering strategies, with the errors.
use poly_bot.Prelude.{
  ◌≡◌, refl, ℕ, Bool, true, false, not, ◌&&◌, none, some, [], ◌∷◌, ◌==◌, arith, Option-cases, inl,
  inr,
}
use poly_bot.Prelude.Dict.{
  Dict, lookup, insert, erase, adjust, lookup-insert, lookup-erase, lookup-adjust,
}
use poly_bot.Types.{Key}
use poly_bot.Strategy.Traits.{Strategy}
use poly_bot.Strategy.Router.{
  RegisteredStrategy, StrategyRouter, done, failed, strategy_already_registered, strategy_not_found,
  register, unregister, enable, disable, is_enabled,
}

erase-insert :
    {V : Type 0} (k : ℕ) (v : V) (m : Dict V) → lookup k m ≡ none → erase k (insert k v m) ≡ m
erase-insert k v [] h = ground arith
erase-insert k v ((j, w) ∷ m) h = ground (arith, erase-insert k v m)

module _ {S : Type 0} where
  abbrev switched : Bool → RegisteredStrategy S → RegisteredStrategy S
  switched b reg = record reg { enabled = b }

  switch_twice :
      (b c : Bool) (name : Key) (r : StrategyRouter S)
      → adjust name (switched c) (adjust name (switched b) r) ≡ adjust name (switched c) r
  switch_twice b c name [] = refl
  switch_twice b c name ((i, reg) ∷ r) = ground (arith, switch_twice b c name r)

  missing_fails :
      (r : StrategyRouter S) (name : Key)
      → lookup name r ≡ none
      → (unregister r name ≡ (r, failed (strategy_not_found name)))
        × (enable r name ≡ (r, failed (strategy_not_found name)))
        × (disable r name ≡ (r, failed (strategy_not_found name)))
  unfolding unregister enable disable
  missing_fails r name h = (ground arith, ground arith, ground arith)

  unregister-none : (r : StrategyRouter S) (name : Key) → lookup name (unregister r name).0 ≡ none
  unfolding unregister
  unregister-none r name = elim (Option-cases (lookup name r)) [
    | inl absent ↦ ground arith
    | inr (reg, e) ↦ ground (arith, lookup-erase name name r)
  ]

  -- Once a strategy is unregistered, its name is unknown: enabling, disabling and unregistering it
  -- again fail and change nothing.
  pub unregistered_fails :
      (r : StrategyRouter S) (name : Key)
      → let gone = (unregister r name).0 in
        (unregister gone name ≡ (gone, failed (strategy_not_found name)))
        × (enable gone name ≡ (gone, failed (strategy_not_found name)))
        × (disable gone name ≡ (gone, failed (strategy_not_found name)))
  unregistered_fails r name = missing_fails (unregister r name).0 name (unregister-none r name)

  module _ ⦃t : Strategy S⦄ where
    abbrev fresh : S → RegisteredStrategy S
    fresh s = record {
      strategy = s;
      enabled = true;
      subscribed_markets = t.subscribed_markets s;
      eval_count = 0;
      intent_count = 0;
    }

    register-fresh :
        (r : StrategyRouter S) (s : S)
        → lookup (t.name s) r ≡ none
        → register r s ≡ (insert (t.name s) (fresh s) r, done)
    unfolding register
    register-fresh r s h = ground arith

    fresh_is :
        (r : StrategyRouter S) (s : S)
        → lookup (t.name s) (insert (t.name s) (fresh s) r) ≡ some (fresh s)
    fresh_is r s = ground (arith, lookup-insert (t.name s) (t.name s) (fresh s) r)

    after_fresh :
        (r : StrategyRouter S) (s : S)
        → lookup (t.name s) r ≡ none
        → let r' = insert (t.name s) (fresh s) r in
          (is_enabled r' (t.name s) ≡ t.is_enabled s)
          × (register r' s ≡ (r', failed (strategy_already_registered (t.name s))))
          × (unregister r' (t.name s) ≡ (r, done))
    unfolding register unregister is_enabled
    after_fresh r s h = (
      ground (arith, fresh_is r s),
      ground (arith, fresh_is r s),
      ground (arith, fresh_is r s, erase-insert (t.name s) (fresh s) r),
    )

    -- A strategy whose name is not taken is registered and enabled as far as the router goes, a
    -- second one of that name is refused, and unregistering it gives back the router from before.
    pub register_lem :
        (r : StrategyRouter S) (s : S)
        → lookup (t.name s) r ≡ none
        → let r' = (register r s).0 in
          ((register r s).1 ≡ done)
          × (is_enabled r' (t.name s) ≡ t.is_enabled s)
          × (register r' s ≡ (r', failed (strategy_already_registered (t.name s))))
          × (unregister r' (t.name s) ≡ (r, done))
    register_lem r s h =
        let (own, again, back) = after_fresh r s h in
        rw (register-fresh r s h) (refl, own, again, back)

    -- Disabling a strategy disables it and no other, and leaves no trace once it is enabled again.
    pub disable_lem :
        (r : StrategyRouter S) (name j : Key)
        → (is_enabled (disable r name).0 j ≡ (not (name == j) && is_enabled r j))
          × (enable (disable r name).0 name ≡ enable r name)
    unfolding is_enabled disable enable
    disable_lem r name j = elim (Option-cases (lookup name r)) [
      | inl absent ↦ (ground (arith, absent), ground arith)
      | inr (reg, e) ↦ (
        ground (arith, lookup-adjust name j (switched false) r),
        ground (arith, lookup-adjust name name (switched false) r, switch_twice false true name r),
      )
    ]
