-- ===== src/Risk/Reconciliation/Examples.antt =====
-- A reconciliation of two orders over two pages, and the theorems there.
use poly_bot.Prelude.{
  ◌≡◌, refl, true, Option, none, some, [], ◌∷◌, all, contains, is_empty, if◌then◌else◌, ◌==◌, arith,
}
use poly_bot.Decimal.{dec, nought}
use poly_bot.Types.{Key, buy, acked}
use poly_bot.Ledger.Orders.{TrackedOrder, OpenOrders, all_open}
use poly_bot.Risk.Reconciliation.{
  parse_sdk_status, find_local, mismatches, unknown_local, unknown_remote, ServerOrder, live, Page,
  Response, page, failure, fetched, fetch_all, reconcile, local_ids, server_ids, remote_not_local,
}
use poly_bot.Risk.Reconciliation.Pages.{Gives, all_orders, fetch_all_lem}
use poly_bot.Risk.Reconciliation.Agreement.{agrees, is_accounted, reconcile_lem, success_lem}

abbrev order : TrackedOrder
order = record {
  order_id = some 40;
  local_id = 7;
  state = acked;
  token_id = 1;
  side = buy;
  price = dec 5 1;
  original_size = dec 100 0;
  filled_size = nought;
  remaining_size = dec 100 0;
  created_at = 10;
  last_update = 10;
  strategy_id = none;
}

abbrev orders : OpenOrders
orders = record {
  by_order_id = (40, order) ∷ [];
  by_local_id = (7, order) ∷ [];
  total_created = 1;
  total_filled = 0;
  total_cancelled = 0;
  total_rejected = 0;
}

abbrev server_order : Key → ServerOrder
server_order i = record { id = i; status = live; size_matched = nought }

abbrev first : Page
first = record { data_of = server_order 40 ∷ []; next_cursor = 77 }

abbrev second : Page
second = record { data_of = server_order 41 ∷ []; next_cursor = 1 }

abbrev fetch : Option Key → Response
fetch none = page first
fetch (some cursor) = if cursor == 77 then page second else failure 3

given : Gives fetch none (first ∷ second ∷ [])
given = Gives.then_more first refl refl (Gives.at_end second refl refl)

fetch_all_lem_example : fetch_all fetch 5 none ≡ fetched (all_orders fetch (first ∷ second ∷ []))
fetch_all_lem_example = fetch_all_lem fetch 5 given (omega arith)

unknown_order :
    (reconcile (server_order 40 ∷ server_order 41 ∷ []) orders).discrepancies
    ≡ remote_not_local 41 ∷ []
unfolding reconcile unknown_remote local_ids all_open unknown_local mismatches find_local
    parse_sdk_status
unknown_order = refl

reconcile_lem_example :
    is_empty (reconcile (server_order 40 ∷ server_order 41 ∷ []) orders).discrepancies
    ≡ agrees (server_order 40 ∷ server_order 41 ∷ []) (all_open orders)
reconcile_lem_example = reconcile_lem (server_order 40 ∷ server_order 41 ∷ []) orders

succeeds : (reconcile (server_order 40 ∷ []) orders).success ≡ true
unfolding reconcile unknown_remote local_ids all_open unknown_local mismatches find_local
    parse_sdk_status
succeeds = refl

success_lem_example :
    (all (λ (s : ServerOrder). contains s.id (local_ids (all_open orders))) (server_order 40 ∷ [])
      ≡ true)
    × (all (is_accounted (server_ids (server_order 40 ∷ []))) (all_open orders) ≡ true)
success_lem_example = success_lem (server_order 40 ∷ []) orders succeeds
