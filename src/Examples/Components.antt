-- ===== src/Examples/Components.antt =====
-- The theorems on the inventory and payment services, the storage in PostgreSQL and the HTTP layer at
-- concrete inputs.
use mathlib.Core.List.{Perm}
use ms_ex.Prelude.{String, List, ◌%◌, ◌≡◌, ◌↔◌, refl, Option, none, some, [], ◌∷◌}
use ms_ex.Errors.{Error, ok, err, is, status, error_text}
use ms_ex.Wire.{part_type_unspecified, part_type_engine, ProtoPayOrderRequest}
use ms_ex.Inventory.Repository.{Part}
use ms_ex.Inventory.Service.{list_parts}
use ms_ex.Inventory.Service.Lookup.{AllResolved, list_parts_by_uuids}
use ms_ex.Inventory.Service.Names.{IsSortedByName}
use ms_ex.Inventory.Service.Listing.{asked_parts, list_parts_by_type}
use ms_ex.Payment.Service as PaymentService
use ms_ex.Payment.Api as PaymentApi
use ms_ex.Order.Repository.{TrManager, IsStorageOf}
use ms_ex.Order.Repository.Contract.{IsTransactional, postgres, postgres_view, postgres-IsStorageOf}
use ms_ex.Order.Repository.Postgres.{Database, as_stored}
use ms_ex.Http.Router.{find_elem, get_order, Route}
use ms_ex.Http.Router.Prefix.{bytes}
use ms_ex.Http.Router.Routes.{Matches, find_elem_iff}
use ms_ex.Order.Data.{Order}
use ms_ex.Examples.Sorting.{insertion_sort, insertion_sort-IsSort}
use ms_ex.Examples.Data.{libs, catalog, same_order, hull, engine, plasma_hull}

list_parts_by_uuids_example :
    (list_parts libs catalog same_order part_type_unspecified ("x." ∷ "x.." ∷ [])
      ≡ ok (hull ∷ engine ∷ []))
    ↔ AllResolved libs catalog ("x." ∷ "x.." ∷ []) (hull ∷ engine ∷ [])
list_parts_by_uuids_example =
    list_parts_by_uuids libs catalog same_order part_type_unspecified "x." ("x.." ∷ [])
      (hull ∷ engine ∷ [])

abbrev one_id : String
one_id = "x."

list_parts_by_type_example :
    (parts : List Part) × (list_parts libs catalog insertion_sort part_type_engine [] ≡ ok parts)
    × Perm parts (asked_parts part_type_engine (hull ∷ engine ∷ plasma_hull ∷ []))
    × IsSortedByName parts
list_parts_by_type_example =
    list_parts_by_type libs catalog insertion_sort part_type_engine insertion_sort-IsSort refl

abbrev unspecified : ProtoPayOrderRequest
unspecified = record { order_uuid = "x......."; payment_method = 0 }

abbrev refusal : Error
refusal = status 3 "payment_method must not be unspecified"

refused : PaymentApi.pay_order libs 9 unspecified ≡ err refusal
unfolding PaymentApi.pay_order PaymentService.pay_order PaymentApi.to_status_err error_text is
refused = refl

-- A transaction manager that rolls back exactly what reports an error.
abbrev after_body : Option Error × Database → Database → Option Error × Database
after_body (none, db') db = (none, db')
after_body (some e, db') db = (some e, db)

abbrev all_or_nothing : TrManager Database
all_or_nothing = record { run = λ fn db. after_body (fn db) db }

committed :
    (p : Option Error × Database) (db : Database)
    → (after_body p db).0 ≡ none
    → (p.0 ≡ none) × ((after_body p db).1.rows ≡ p.1.rows)
committed (none, db') db h = (refl, refl)
committed (some e, db') db h = cc

rolled_back :
    (p : Option Error × Database) (db : Database) (e : Error)
    → (after_body p db).0 ≡ some e
    → (after_body p db).1.rows ≡ db.rows
rolled_back (none, db') db e h = cc
rolled_back (some e', db') db e h = refl

all_or_nothing-IsTransactional : IsTransactional all_or_nothing
all_or_nothing-IsTransactional = record {
  commit = λ fn db h. committed (fn db) db h;
  rollback = λ fn db e h. rolled_back (fn db) db e h;
}

postgres-IsStorageOf_example :
    IsStorageOf as_stored postgres all_or_nothing postgres_view
    × ((o : Order) → (as_stored o ≡ o) ↔ (o.created_at % 1000 ≡ 0))
postgres-IsStorageOf_example = postgres-IsStorageOf all_or_nothing all_or_nothing-IsTransactional

abbrev route_7 : Route
route_7 = record { operation = get_order; args = bytes "7" ∷ [] }

find_elem_iff_example :
    (find_elem "GET" (bytes "/api/v1/orders/7") ≡ some route_7)
    ↔ Matches "GET" (bytes "/api/v1/orders/7") route_7
find_elem_iff_example = find_elem_iff "GET" (bytes "/api/v1/orders/7") route_7
