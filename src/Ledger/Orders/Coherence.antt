-- ===== src/Ledger/Orders/Coherence.antt =====
-- The two indices of `OpenOrders` hold the same orders, whatever calls are made.
use poly_bot.Prelude.{
  ℕ, ◌≡◌, refl, inl, inr, Option, none, some, List, [], ◌∷◌, arith, Option-cases, Bool-cases,
}
use poly_bot.Prelude.Dict.{Dict, lookup, adjust, lookup-insert, lookup-adjust, lookup-erase}
use poly_bot.Decimal.{Decimal, DecimalOps}
use poly_bot.Types.{Key, Side, OrderState}
use poly_bot.Ledger.Orders.{
  TrackedOrder, OpenOrders, new, add_order, link_order_id, transition, apply_fill, adjust_copy,
  erase_copy, linked, count_state, filled_by, copied_from, moved, remove_one, remove_all,
  remove_terminal, new_order, terminal_ids, can_transition_to,
}

-- Each order stands under its own local id; a copy is the order itself; and an order that has an
-- exchange id has its copy there.
pub record IsIndexed (by_local_id by_order_id : Dict TrackedOrder) : Type 0 where
  pub keyed : (l : Key) (x : TrackedOrder) → lookup l by_local_id ≡ some x → x.local_id ≡ l
  pub copies :
      (k : Key) (x : TrackedOrder)
      → lookup k by_order_id ≡ some x
      → (lookup x.local_id by_local_id ≡ some x) × (x.order_id ≡ some k)
  pub copied :
      (l k : Key) (x : TrackedOrder)
      → lookup l by_local_id ≡ some x
      → x.order_id ≡ some k
      → lookup k by_order_id ≡ some x

abbrev pub IsCoherent : OpenOrders → Type 0
IsCoherent s = IsIndexed s.by_local_id s.by_order_id

new-IsCoherent : IsCoherent new
unfolding new
new-IsCoherent = record { keyed = λ l x h. cc; copies = λ k x h. cc; copied = λ l k x h. cc }

-- A new order has a local id that is not taken, and no exchange id.
add_order-IsCoherent :
    (s : OpenOrders) (x : TrackedOrder)
    → IsCoherent s
    → lookup x.local_id s.by_local_id ≡ none
    → x.order_id ≡ none
    → IsCoherent (add_order s x).0
unfolding add_order
add_order-IsCoherent s x c fresh bare = record {
  keyed = λ l y h. ground (arith, c.keyed l y, lookup-insert x.local_id l x s.by_local_id);
  copies =
      λ k y h. ground (arith, c.copies k y h, lookup-insert x.local_id y.local_id x s.by_local_id);
  copied = λ l k y h e. ground (arith, c.copied l k y, lookup-insert x.local_id l x s.by_local_id);
}

-- An exchange id is linked once, to an order that has none.
link_order_id-IsCoherent :
    (s : OpenOrders) (l k : Key) (now : ℕ) {x : TrackedOrder}
    → IsCoherent s
    → lookup l s.by_local_id ≡ some x
    → x.order_id ≡ none
    → lookup k s.by_order_id ≡ none
    → IsCoherent (link_order_id s l k now).0
unfolding link_order_id
link_order_id-IsCoherent s l k now {x} c found bare free =
    rw (found, link_order_id)
      (record {
        keyed = λ l' y h. ground (
          arith,
          c.keyed l x found,
          c.keyed l' y,
          lookup-adjust l l' (linked k now) s.by_local_id,
        );
        copies = λ k' y h. ground (
          arith,
          c.keyed l x found,
          c.copies k' y,
          lookup-adjust l y.local_id (linked k now) s.by_local_id,
          lookup-insert k k' (linked k now x) s.by_order_id,
        );
        copied = λ l' k' y h e. ground (
          arith,
          c.copied l' k' y,
          c.keyed l x found,
          lookup-adjust l l' (linked k now) s.by_local_id,
          lookup-insert k k' (linked k now x) s.by_order_id,
        );
      })

-- One change of an order and of its copy, which keeps its ids.
module _ (f g : TrackedOrder → TrackedOrder) (l : Key) (x : TrackedOrder) where
  touch-IsIndexed :
      (by_local_id by_order_id : Dict TrackedOrder)
      → IsIndexed by_local_id by_order_id
      → lookup l by_local_id ≡ some x
      → f x ≡ g x
      → (f x).local_id ≡ x.local_id
      → (f x).order_id ≡ x.order_id
      → IsIndexed (adjust l f by_local_id) (adjust_copy x.order_id g by_order_id)
  touch-IsIndexed m n c found same_value same_local same_order = elim (Option-cases x.order_id) [
    | inl bare ↦
        rw (bare, adjust_copy)
          (record {
            keyed =
                λ l' y h. ground (arith, c.keyed l x found, c.keyed l' y, lookup-adjust l l' f m);
            copies = λ k' y h.
                ground (arith, c.keyed l x found, c.copies k' y, lookup-adjust l y.local_id f m);
            copied = λ l' k' y h e. ground (arith, c.copied l' k' y, lookup-adjust l l' f m);
          })
    | inr (k, e) ↦
        rw (e, adjust_copy)
          (record {
            keyed =
                λ l' y h. ground (arith, c.keyed l x found, c.keyed l' y, lookup-adjust l l' f m);
            copies = λ k' y h. ground (
              arith,
              c.keyed l x found,
              c.copies k' y,
              c.copied l k x found e,
              lookup-adjust l y.local_id f m,
              lookup-adjust k k' g n,
            );
            copied = λ l' k' y h e'. ground (
              arith,
              c.keyed l x found,
              c.keyed l' y,
              c.copied l' k' y,
              c.copied l k x found e,
              lookup-adjust l l' f m,
              lookup-adjust k k' g n,
            );
          })
  ]

pub count_state_indices :
    (t : OrderState) (s : OpenOrders)
    → ((count_state t s).by_local_id ≡ s.by_local_id)
      × ((count_state t s).by_order_id ≡ s.by_order_id)
count_state_indices t s = ground arith

transition-IsCoherent :
    (s : OpenOrders) (l : Key) (t : OrderState) (now : ℕ)
    → IsCoherent s
    → IsCoherent (transition s l t now).0
unfolding transition
transition-IsCoherent s l t now c = elim (Option-cases (lookup l s.by_local_id)) [
  | inl missing ↦ rw (missing, transition) c
  | inr (x, found) ↦ elim (Bool-cases (can_transition_to x.state t)) [
    | inl valid ↦
        rw (found, transition)
          (rw valid (
            rw ((count_state_indices t _).0, (count_state_indices t _).1)
              (touch-IsIndexed (moved t now) (moved t now) l x s.by_local_id s.by_order_id c found
                refl refl refl)))
    | inr refused ↦ rw (found, transition) (rw refused c)
  ]
]

apply_fill-IsCoherent :
    ⦃o : DecimalOps⦄ (s : OpenOrders) (l : Key) (size : Decimal) (now : ℕ)
    → IsCoherent s
    → IsCoherent (apply_fill s l size now).0
unfolding apply_fill
apply_fill-IsCoherent s l size now c = elim (Option-cases (lookup l s.by_local_id)) [
  | inl missing ↦ rw (missing, apply_fill) c
  | inr (x, found) ↦
      rw (found, apply_fill)
        (touch-IsIndexed (filled_by size now) (copied_from (filled_by size now x)) l x s.by_local_id
          s.by_order_id c found refl refl refl)
]

remove_one-IsCoherent : (s : OpenOrders) (l : Key) → IsCoherent s → IsCoherent (remove_one s l)
unfolding remove_one
remove_one-IsCoherent s l c = elim (Option-cases (lookup l s.by_local_id)) [
  | inl missing ↦ rw (missing, remove_one) c
  | inr (x, found) ↦
      rw (found, remove_one)
        (elim (Option-cases x.order_id) [
          | inl bare ↦
              rw (bare, erase_copy)
                (record {
                  keyed = λ l' y h. ground (arith, c.keyed l' y, lookup-erase l l' s.by_local_id);
                  copies = λ k' y h.
                      ground (arith, c.copies k' y, lookup-erase l y.local_id s.by_local_id);
                  copied = λ l' k' y h e.
                      ground (arith, c.copied l' k' y, lookup-erase l l' s.by_local_id);
                })
          | inr (k, e) ↦
              rw (e, erase_copy)
                (record {
                  keyed = λ l' y h. ground (arith, c.keyed l' y, lookup-erase l l' s.by_local_id);
                  copies = λ k' y h. ground (
                    arith,
                    c.copies k' y,
                    lookup-erase l y.local_id s.by_local_id,
                    lookup-erase k k' s.by_order_id,
                  );
                  copied = λ l' k' y h e'. ground (
                    arith,
                    c.copied l' k' y,
                    c.copied l k x found e,
                    c.keyed l x found,
                    c.keyed l' y,
                    lookup-erase l l' s.by_local_id,
                    lookup-erase k k' s.by_order_id,
                  );
                })
        ])
]

remove_all-IsCoherent :
    (s : OpenOrders) (ids : List Key) → IsCoherent s → IsCoherent (remove_all s ids)
unfolding remove_all
remove_all-IsCoherent s [] c = c
remove_all-IsCoherent s (l ∷ ids) c =
    remove_all-IsCoherent (remove_one s l) ids (remove_one-IsCoherent s l c)

-- The calls that the bot makes: a new order has a local id that is not taken, and an exchange id is
-- linked once, to an order that has none.
pub data Step ⦃o : DecimalOps⦄ (s : OpenOrders) : OpenOrders → Type 0 where
  added :
      (uuid now token_id : ℕ) (side : Side) (price size : Decimal) (strategy_id : Option Key)
      → lookup uuid s.by_local_id ≡ none
      → Step s (add_order s (new_order uuid now token_id side price size strategy_id)).0
  acknowledged :
      (l k : Key) (now : ℕ) (x : TrackedOrder)
      → lookup l s.by_local_id ≡ some x
      → x.order_id ≡ none
      → lookup k s.by_order_id ≡ none
      → Step s (link_order_id s l k now).0
  moved_to : (l : Key) (t : OrderState) (now : ℕ) → Step s (transition s l t now).0
  filled_with : (l : Key) (size : Decimal) (now : ℕ) → Step s (apply_fill s l size now).0
  cleaned : Step s (remove_terminal s)

pub data Reach ⦃o : DecimalOps⦄ : OpenOrders → Type 0 where
  begin : Reach new
  next : {s t : OpenOrders} → Reach s → Step s t → Reach t

Step-IsCoherent : ⦃o : DecimalOps⦄ {s t : OpenOrders} → Step s t → IsCoherent s → IsCoherent t
unfolding remove_terminal new_order
Step-IsCoherent {s = s} (added u now tok side p q i fresh) c =
    add_order-IsCoherent s (new_order u now tok side p q i) c fresh refl
Step-IsCoherent {s = s} (acknowledged l k now x found bare free) c =
    link_order_id-IsCoherent s l k now c found bare free
Step-IsCoherent {s = s} (moved_to l t now) c = transition-IsCoherent s l t now c
Step-IsCoherent {s = s} (filled_with l size now) c = apply_fill-IsCoherent s l size now c
Step-IsCoherent {s = s} cleaned c = remove_all-IsCoherent s (terminal_ids s) c

-- Whatever calls are made on OpenOrders, where local ids are fresh and an exchange id is linked
-- once, each copy under an exchange id is the local order itself, and each order with an exchange
-- id has its copy there.
pub Reach-IsCoherent : ⦃o : DecimalOps⦄ {s : OpenOrders} → Reach s → IsCoherent s
Reach-IsCoherent begin = new-IsCoherent
Reach-IsCoherent (next r st) = Step-IsCoherent st (Reach-IsCoherent r)
