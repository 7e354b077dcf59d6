-- ===== src/Examples/Systems.antt =====
-- The theorems on the services together, and on the handlers, at concrete inputs.
use ms_ex.Prelude.{
  true, false, pos, wrap_int64, ◌≡◌, ◌≢◌, refl, some, List, [], ◌∷◌, ◌++◌, arith, lookup, inl,
}
use ms_ex.Errors.{ok}
use ms_ex.External.{Uuid}
use ms_ex.Order.Data.{Order}
use ms_ex.Order.Repository.Memory
use ms_ex.Order.Repository.Contract.{memory_view, memory-IsStorage}
use ms_ex.Order.Service.{
  World, component_uuids, new_order, paid_with, save_order, create_order, list_parts_call,
}
use ms_ex.Order.Service.Creating.{parts_request}
use ms_ex.Order.Api as Api
use ms_ex.Order.Api.{
  answers, panics, order_not_found_body, order_final_body, to_order_dto, create_order_input,
}
use ms_ex.Order.Api.Answers.{pay_order-ne-panics}
use ms_ex.Http.Schemas.{
  get_order_ok, pay_order_paid, pay_order_conflict, cancel_order_conflict, create_order_not_found,
  create_order_conflict, get,
}
use ms_ex.Inventory.Service.{resolve}
use ms_ex.Inventory.Service.Lookup.{AllResolved}
use ms_ex.System.{order_service}
use ms_ex.System.Ordering.{
  catalog_total, IsAvailable, create_order_priced, create_order_missing, create_order_out_of_stock,
}
use ms_ex.System.Paying.{in_memory, world_paid, pay_order_runs, paid_for_good}
use ms_ex.Order.Service as OrderService
use ms_ex.Order.Main.{
  MainLib, Event, start, exited, signal, request_comes, acquire, shutdown_called, server_closed,
  pool_closed, next, run, main,
}
use ms_ex.Order.Main.Ends.{opened, releases, main_cut_off}
use ms_ex.Examples.Data.{
  libs, lib_laws, catalog, same_order, drawn_id, input_of, request_of, by_card, hull, engine,
  plasma_hull, pending_order, paid_order, no_orders, one_pending, one_paid, answering,
}

abbrev system : OrderService.Service Memory.Orders
system = order_service libs (in_memory catalog same_order drawn_id)

pending_stored : lookup 7 one_pending.stored ≡ some pending_order
unfolding lookup
pending_stored = refl

pay_order_runs_example : Api.pay_order libs system by_card 7 one_pending ≡ (
  answers (pay_order_paid (record { transaction_uuid = 9 })),
  world_paid libs lib_laws catalog same_order drawn_id 7 by_card pending_order one_pending,
)
pay_order_runs_example =
    pay_order_runs libs lib_laws catalog same_order drawn_id by_card 7 pending_order one_pending
      pending_stored refl (inl refl)

abbrev after : World Memory.Orders
after = (Api.pay_order libs system by_card 7 one_pending).1

paid_for_good_example :
    (Api.get_order libs system 7 after
      ≡ (answers (get_order_ok (to_order_dto (paid_with 9 "CARD" pending_order))), after))
    × (Api.pay_order libs system by_card 7 after
        ≡ (answers (pay_order_conflict order_final_body), after))
    × (Api.cancel_order libs system 7 after
        ≡ (answers (cancel_order_conflict order_final_body), after))
paid_for_good_example =
    paid_for_good libs lib_laws catalog same_order drawn_id by_card by_card 7 pending_order
      one_pending pending_stored refl refl (inl refl)

resolved : AllResolved libs catalog (component_uuids libs (input_of 1)) (hull ∷ engine ∷ [])
unfolding component_uuids resolve
resolved = (refl, (refl, tt))

abbrev asked : Uuid → World Memory.Orders
asked id = record no_orders { calls = list_parts_call (parts_request libs (input_of id)) ∷ [] }

create_order_priced_example :
    create_order libs system 8 5 (input_of 1) no_orders
    ≡ save_order libs system
        (new_order 8 5 (input_of 1) (wrap_int64 (catalog_total (hull ∷ engine ∷ []))))
        (asked 1)
unfolding in_memory
create_order_priced_example =
    create_order_priced libs (in_memory catalog same_order drawn_id) 8 5 (input_of 1) no_orders
      (hull ∷ engine ∷ []) resolved (omega arith, (omega arith, tt))

missing_split :
    component_uuids libs (create_order_input (request_of 4)) ≡ [] ++ libs.uuid_string 4 ∷ "x.." ∷ []
unfolding component_uuids create_order_input get
missing_split = refl

create_order_missing_example : Api.create_order libs system 8 5 (request_of 4) no_orders ≡ (
  answers (
      create_order_not_found
        (record { code = pos 404; message = "component not found: part not found: x...." })),
  record no_orders {
    calls = list_parts_call (parts_request libs (create_order_input (request_of 4))) ∷ [];
  },
)
unfolding in_memory
create_order_missing_example =
    create_order_missing libs (in_memory catalog same_order drawn_id) lib_laws 8 5 (request_of 4)
      no_orders [] [] 4 ("x.." ∷ []) missing_split tt refl

plasma_resolved :
    AllResolved libs catalog
      (component_uuids libs (create_order_input (request_of 3)))
      ([] ++ plasma_hull ∷ engine ∷ [])
unfolding component_uuids resolve create_order_input get
plasma_resolved = (refl, (refl, tt))

plasma_out : ¬ IsAvailable plasma_hull
plasma_out h = absurd (omega (arith, h))

create_order_out_of_stock_example : Api.create_order libs system 8 5 (request_of 3) no_orders ≡ (
  answers
      (create_order_conflict (record { code = pos 409; message = "component out of stock: x..." })),
  record no_orders {
    calls = list_parts_call (parts_request libs (create_order_input (request_of 3))) ∷ [];
  },
)
unfolding in_memory
create_order_out_of_stock_example =
    create_order_out_of_stock libs (in_memory catalog same_order drawn_id) 8 5 (request_of 3)
      no_orders [] plasma_hull (engine ∷ []) plasma_resolved tt plasma_out

one_keyed : (id : Uuid) (o : Order) → memory_view one_pending.stored id ≡ some o → o.order_uuid ≡ id
unfolding lookup
one_keyed id o h = ground (arith, h)

pay_order-ne-panics_example : (Api.pay_order libs answering by_card 7 one_pending).0 ≢ panics
pay_order-ne-panics_example =
    pay_order-ne-panics libs answering memory_view memory-IsStorage by_card 7 one_pending one_keyed

paid_stored : Memory.get 7 one_paid.stored ≡ ok paid_order
unfolding Memory.get lookup
paid_stored = refl

-- An environment in which all can be opened.
abbrev at_home : MainLib
at_home = record {
  getenv = λ key. "";
  new_pool = λ uri. true;
  new_client = λ address. true;
  setup_server = true;
}

-- Two requests at work, each of which holds a connection.
abbrev two_at_work : List Event
two_at_work = request_comes ∷ acquire ∷ request_comes ∷ acquire ∷ []

main_cut_off_example :
    main at_home
      (two_at_work ++ (signal ∷ shutdown_called ∷ server_closed ∷ (releases 2 ++ pool_closed ∷ [])))
    ≡ exited 0 2 opened
main_cut_off_example =
    main_cut_off at_home two_at_work 2 2 2 false false (unfold main start run next in refl)
      (omega arith)
