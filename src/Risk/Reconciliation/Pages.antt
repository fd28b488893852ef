-- ===== src/Risk/Reconciliation/Pages.antt =====
-- The loop over the pages ends, with all orders in their order, when the cursors come to an end.
use poly_bot.Prelude.{
  ℕ, zero, suc, ◌≤◌, ◌≡◌, refl, ap, sym, true, false, Option, some, List, [], ◌∷◌, ◌++◌, length,
  arith,
}
use poly_bot.Types.{Key}
use poly_bot.Risk.Reconciliation.{
  ServerOrder, Page, Response, page, fetched, and_then, is_last, fetch_all,
}

module _ (fetch : Option Key → Response) where
  -- From a cursor the client gives these pages, of which the last says so.
  pub data Gives : Option Key → List Page → Type 0 where
    at_end :
        {cursor : Option Key} (p : Page)
        → fetch cursor ≡ page p
        → is_last fetch p.next_cursor ≡ true
        → Gives cursor (p ∷ [])
    then_more :
        {cursor : Option Key} (p : Page) {ps : List Page}
        → fetch cursor ≡ page p
        → is_last fetch p.next_cursor ≡ false
        → Gives (some p.next_cursor) ps
        → Gives cursor (p ∷ ps)

  abbrev pub all_orders : List Page → List ServerOrder
  all_orders [] = []
  all_orders (p ∷ ps) = p.data_of ++ all_orders ps

  append_nil : (xs : List ServerOrder) → xs ++ [] ≡ xs
  append_nil [] = refl
  append_nil (x ∷ xs) = ap (λ ys. x ∷ ys) (append_nil xs)

  -- Where the client gives a finite number of pages and the turns of the loop are as many, it ends
  -- with the orders of all pages, in their order.
  pub fetch_all_lem :
      (fuel : ℕ) {cursor : Option Key} {ps : List Page}
      → Gives cursor ps
      → length ps ≤ fuel
      → fetch_all fetch fuel cursor ≡ fetched (all_orders ps)
  unfolding fetch_all
  fetch_all_lem zero (at_end p e h) f = absurd (omega arith)
  fetch_all_lem zero (then_more p e h g) f = absurd (omega arith)
  fetch_all_lem (suc fuel) (at_end p e h) f =
      rw (fetch_all, e, h) (ap fetched (sym (append_nil p.data_of)))
  fetch_all_lem (suc fuel) (then_more p e h g) f =
      rw (fetch_all, e, h) (ap (and_then fetch p.data_of) (fetch_all_lem fuel g (omega arith)))
