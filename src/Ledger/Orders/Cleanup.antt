-- ===== src/Ledger/Orders/Cleanup.antt =====
-- Removing what is done, and the sizes of every order that is reached.
use poly_bot.Prelude.{
  ◌≡◌, refl, inl, inr, Bool, false, Option, none, some, List, [], ◌∷◌, arith, Option-cases,
  if◌then◌else◌, ◌==◌, ==_refl, map, filter, contains, ap, ◌∙◌,
}
use poly_bot.Prelude.Dict.{
  Dict, lookup, adjust, values, HasDistinctKeys, lookup-insert, lookup-adjust, lookup-erase,
  insert-HasDistinctKeys, adjust-HasDistinctKeys, erase-HasDistinctKeys,
}
use poly_bot.Decimal.{Decimal, DecimalOps, IsExact, exact, nought, add, sub}
use poly_bot.Types.{Key}
use poly_bot.Ledger.Orders.{
  TrackedOrder, OpenOrders, get_by_local_id, transition, apply_fill, filled_by, moved, linked,
  remove_one, remove_all, remove_terminal, new_order, terminal_ids, is_terminal, local_id_of,
  add_order, link_order_id, new,
}
use poly_bot.Ledger.Orders.Coherence.{Step, Reach, Reach-IsCoherent}

remove_one-HasDistinctKeys :
    (s : OpenOrders) (l : Key)
    → HasDistinctKeys s.by_local_id
    → HasDistinctKeys (remove_one s l).by_local_id
unfolding remove_one
remove_one-HasDistinctKeys s l d = ground (arith, erase-HasDistinctKeys l s.by_local_id d)

remove_all-HasDistinctKeys :
    (s : OpenOrders) (ids : List Key)
    → HasDistinctKeys s.by_local_id
    → HasDistinctKeys (remove_all s ids).by_local_id
unfolding remove_all
remove_all-HasDistinctKeys s [] d = d
remove_all-HasDistinctKeys s (l ∷ ids) d =
    remove_all-HasDistinctKeys (remove_one s l) ids (remove_one-HasDistinctKeys s l d)

-- The local index lists each id once.
Step-HasDistinctKeys :
    ⦃o : DecimalOps⦄ {s t : OpenOrders}
    → Step s t
    → HasDistinctKeys s.by_local_id
    → HasDistinctKeys t.by_local_id
unfolding add_order link_order_id transition apply_fill remove_terminal
Step-HasDistinctKeys {s = s} (Step.added u now tok side p q i fresh) d =
    insert-HasDistinctKeys _ _ s.by_local_id d
Step-HasDistinctKeys {s = s} (Step.acknowledged l k now x found bare free) d =
    ground (arith, adjust-HasDistinctKeys l (linked k now) s.by_local_id d)
Step-HasDistinctKeys {s = s} (Step.moved_to l t now) d =
    ground (arith, adjust-HasDistinctKeys l (moved t now) s.by_local_id d)
Step-HasDistinctKeys {s = s} (Step.filled_with l size now) d =
    ground (arith, adjust-HasDistinctKeys l (filled_by size now) s.by_local_id d)
Step-HasDistinctKeys {s = s} Step.cleaned d = remove_all-HasDistinctKeys s (terminal_ids s) d

pub Reach-HasDistinctKeys :
    ⦃o : DecimalOps⦄ {s : OpenOrders} → Reach s → HasDistinctKeys s.by_local_id
unfolding new
Reach-HasDistinctKeys Reach.begin = tt
Reach-HasDistinctKeys (Reach.next r st) = Step-HasDistinctKeys st (Reach-HasDistinctKeys r)

lookup-remove_one :
    (s : OpenOrders) (l j : Key)
    → lookup j (remove_one s l).by_local_id ≡ (if l == j then none else lookup j s.by_local_id)
unfolding remove_one
lookup-remove_one s l j = ground (arith, lookup-erase l j s.by_local_id)

lookup-remove_all :
    (s : OpenOrders) (ids : List Key) (j : Key)
    → lookup j (remove_all s ids).by_local_id
      ≡ (if contains j ids then none else lookup j s.by_local_id)
unfolding remove_all
lookup-remove_all s [] j = refl
lookup-remove_all s (l ∷ ids) j =
    ground (arith, lookup-remove_all (remove_one s l) ids j, lookup-remove_one s l j)

-- Under each local id stands an order with that id.
abbrev AreKeyed : Dict TrackedOrder → Type 0
AreKeyed [] = Unit
AreKeyed ((j, x) ∷ m) = (x.local_id ≡ j) × AreKeyed m

AreKeyed-of_keyed :
    (m : Dict TrackedOrder)
    → HasDistinctKeys m
    → ((l : Key) (x : TrackedOrder) → lookup l m ≡ some x → x.local_id ≡ l)
    → AreKeyed m
AreKeyed-of_keyed [] d k = tt
AreKeyed-of_keyed ((j, x) ∷ m) d k =
    (k j x (ground (arith, ==_refl j)), AreKeyed-of_keyed m d.1 (λ l y h. k l y (ground arith)))

abbrev pub done_in : Option TrackedOrder → Bool
done_in none = false
done_in (some x) = is_terminal x.state

contains-terminal :
    (m : Dict TrackedOrder) (j : Key)
    → HasDistinctKeys m
    → AreKeyed m
    → contains j (map local_id_of (filter (λ order. is_terminal order.state) (values m)))
      ≡ done_in (lookup j m)
contains-terminal [] j d k = refl
contains-terminal ((i, x) ∷ m) j d k = ground (arith, contains-terminal m j d.1 k.1)

-- After any calls, the cleanup removes exactly the orders in a terminal state and leaves every
-- other order as it was.
pub lookup-remove_terminal :
    ⦃o : DecimalOps⦄ {s : OpenOrders} (j : Key)
    → Reach s
    → get_by_local_id (remove_terminal s) j
      ≡ (if done_in (get_by_local_id s j) then none else get_by_local_id s j)
unfolding remove_terminal get_by_local_id terminal_ids
lookup-remove_terminal {s} j r =
    let d = Reach-HasDistinctKeys r in
    let k = AreKeyed-of_keyed s.by_local_id d (Reach-IsCoherent r).keyed in
    lookup-remove_all s (terminal_ids s) j
    ∙ ap (λ (b : Bool). if b then none else lookup j s.by_local_id)
        (contains-terminal s.by_local_id j d k)

-- What is filled and what remains make up the original size.
abbrev pub IsSized : ⦃o : DecimalOps⦄ → TrackedOrder → Type 0
IsSized x = x.remaining_size ≡ sub x.original_size x.filled_size

module _ ⦃o : DecimalOps⦄ ⦃ex : IsExact⦄ where
  abbrev AreSized : Dict TrackedOrder → Type 0
  AreSized m = (l : Key) (x : TrackedOrder) → lookup l m ≡ some x → IsSized x

  adjust-AreSized :
      (f : TrackedOrder → TrackedOrder) (l' : Key) (m : Dict TrackedOrder)
      → AreSized m
      → ((y : TrackedOrder) → IsSized y → IsSized (f y))
      → AreSized (adjust l' f m)
  adjust-AreSized f l' m h hf l x e = elim (Option-cases (lookup l m)) [
    | inl missing ↦ ground (arith, lookup-adjust l' l f m)
    | inr (y, found) ↦ ground (arith, h l y found, hf y (h l y found), lookup-adjust l' l f m)
  ]

  new_order-IsSized : (a : Decimal) → a ≡ sub a nought
  new_order-IsSized a = grind exact

  Step-AreSized : {s t : OpenOrders} → Step s t → AreSized s.by_local_id → AreSized t.by_local_id
  unfolding add_order link_order_id transition apply_fill remove_terminal new_order
  Step-AreSized {s = s} (Step.added u now tok side p q i fresh) h l x e = ground (
    arith,
    h l x,
    new_order-IsSized q,
    lookup-insert u l (new_order u now tok side p q i) s.by_local_id,
  )
  Step-AreSized {s = s} (Step.acknowledged l' k now y found bare free) h l x e =
      ground (arith, adjust-AreSized (linked k now) l' s.by_local_id h (λ z hz. hz) l x)
  Step-AreSized {s = s} (Step.moved_to l' t now) h l x e =
      ground (arith, h l x, adjust-AreSized (moved t now) l' s.by_local_id h (λ z hz. hz) l x)
  Step-AreSized {s = s} (Step.filled_with l' size now) h l x e =
      ground
        (arith, h l x, adjust-AreSized (filled_by size now) l' s.by_local_id h (λ z hz. refl) l x)
  Step-AreSized {s = s} Step.cleaned h l x e =
      h l x (ground (arith, lookup-remove_all s (terminal_ids s) l))

  Reach-AreSized : {s : OpenOrders} → Reach s → AreSized s.by_local_id
  unfolding new
  Reach-AreSized Reach.begin = λ l x e. cc
  Reach-AreSized (Reach.next r st) = λ l x e. Step-AreSized st (Reach-AreSized r) l x e

  -- Of every order that is ever tracked, what is filled and what remains make up its original size,
  -- where sums and differences are exact.
  pub sizes_add_up :
      {s : OpenOrders} (l : Key) {x : TrackedOrder}
      → Reach s
      → get_by_local_id s l ≡ some x
      → add x.filled_size x.remaining_size ≡ x.original_size
  unfolding get_by_local_id
  sizes_add_up l {x} r e = rw (Reach-AreSized r l x e) (grind exact)
