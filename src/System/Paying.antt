-- ===== src/System/Paying.antt =====
-- Paying for an order through the order and payment services, with the orders kept in memory.
use ms_ex.Inventory.Service.{SortSlice}
use ms_ex.Prelude.{
  List, ◌∷◌, ◌≡◌, ◌≢◌, refl, ap, some, lookup, insert, lookup-insert_self, str_eq, str_eq_iff, true,
}
use ms_ex.Errors.{ok}
use ms_ex.External.{Uuid, Libs, LibLaws}
use ms_ex.Order.Data.{Order, status_pending_payment, status_paid}
use ms_ex.Order.Repository.{noop}
use ms_ex.Order.Repository.Memory
use ms_ex.Order.Repository.Memory.{Orders}
use ms_ex.Order.Repository.Contract.{memory}
use ms_ex.Order.Service as OrderService
use ms_ex.Order.Service.{
  Call, World, pay_order_call, pay_request, paid_with, require_pending, parse_transaction,
}
use ms_ex.Order.Api.{answers, get_order, pay_order, cancel_order, to_order_dto, order_final_body}
use ms_ex.Order.Api.Answers.{final_answers}
use ms_ex.Http.Schemas.{
  PayOrderRequest, get_order_ok, pay_order_paid, pay_order_conflict, cancel_order_conflict,
}
use ms_ex.Inventory.Repository.{Part}
use ms_ex.Inventory.Repository as Catalog
use ms_ex.Payment.Acceptance.{IsKnownMethod, pay_request_accepted}
use ms_ex.System.{Deployment, order_service}

-- The wiring of the tests: orders in a map, no transactions.
unfoldable pub in_memory : Catalog.Repository → SortSlice → (List Call → Uuid) → Deployment Orders
in_memory catalog sort_slice transaction_uuid = record {
  catalog = catalog;
  sort_slice = sort_slice;
  transaction_uuid = transaction_uuid;
  repo = memory;
  tr_manager = noop;
}

module _ (L : Libs) (laws : LibLaws L) (catalog : Catalog.Repository) (sort_slice : SortSlice)
    (transaction_uuid : List Call → Uuid) where
  abbrev system : OrderService.Service Orders
  system = order_service L (in_memory catalog sort_slice transaction_uuid)

  -- The world after the payment of a pending order.
  abbrev pub world_paid : Uuid → PayOrderRequest → Order → World Orders → World Orders
  world_paid id req o w = record {
    stored =
        insert o.order_uuid (paid_with (transaction_uuid w.calls) req.payment_method o) w.stored;
    calls = pay_order_call (pay_request L o req.payment_method) ∷ w.calls;
  }

  paid_found :
      (req : PayOrderRequest) (id : Uuid) (o : Order) (w : World Orders)
      → o.order_uuid ≡ id
      → lookup id (world_paid id req o w).stored
        ≡ some (paid_with (transaction_uuid w.calls) req.payment_method o)
  paid_found req id o w key = rw (← key) (lookup-insert_self o.order_uuid _ w.stored)

  not_pending : status_paid ≢ status_pending_payment
  not_pending e = cc ((str_eq_iff status_paid status_pending_payment).1 e)

  shown :
      (id : Uuid) (o : Order) (w : World Orders)
      → lookup id w.stored ≡ some o
      → get_order L system id w ≡ (answers (get_order_ok (to_order_dto o)), w)
  unfolding get_order OrderService.get_order order_service in_memory Memory.get
  shown id o w found = rw (found, Memory.found) refl

  refused :
      (again : PayOrderRequest) (id : Uuid) (o : Order) (w : World Orders)
      → lookup id w.stored ≡ some o
      → o.status ≢ status_pending_payment
      → (pay_order L system again id w ≡ (answers (pay_order_conflict order_final_body), w))
        × (cancel_order L system id w ≡ (answers (cancel_order_conflict order_final_body), w))
  refused again id o w found final =
      final_answers L system id w again o
        (unfold order_service in_memory Memory.get in rw (found, Memory.found) refl) final

  -- With the orders in memory, paying by a known method for a stored pending order answers with the
  -- transaction id that the payment service drew, stores the order as paid by that transaction and
  -- method, and sends one call to the payment service.
  pub pay_order_runs :
      (req : PayOrderRequest) (id : Uuid) (o : Order) (w : World Orders)
      → lookup id w.stored ≡ some o
      → o.status ≡ status_pending_payment
      → IsKnownMethod req.payment_method
      → pay_order L system req id w ≡ (
        answers (pay_order_paid (record { transaction_uuid = transaction_uuid w.calls })),
        world_paid id req o w,
      )
  unfolding pay_order OrderService.pay_order OrderService.get_order require_pending
      OrderService.charge OrderService.send_pay_order OrderService.save_order
      OrderService.parse_transaction order_service in_memory noop Memory.save Memory.get
  pay_order_runs req id o w found pending known =
      let accepted =
        pay_request_accepted L laws (transaction_uuid w.calls) o req.payment_method known in
      let test : str_eq o.status status_pending_payment ≡ true =
        (str_eq_iff o.status status_pending_payment).1 pending in
      let parsed : parse_transaction L (L.uuid_string (transaction_uuid w.calls))
          ≡ ok (transaction_uuid w.calls) =
        rw (parse_transaction, laws.parse_string) refl in
      rw (found, Memory.found, test, accepted, parsed) (unfold paid_with in refl)

  -- With the orders in memory and an order stored as pending under its own id: after it is paid for
  -- by a known method, GetOrder shows it paid by the transaction and the method, and paying again
  -- by any method and cancelling both answer 409 and change nothing.
  pub paid_for_good :
      (req again : PayOrderRequest) (id : Uuid) (o : Order) (w : World Orders)
      → lookup id w.stored ≡ some o
      → o.order_uuid ≡ id
      → o.status ≡ status_pending_payment
      → IsKnownMethod req.payment_method
      → let w' = (pay_order L system req id w).1 in
        (get_order L system id w' ≡ (
          answers (
              get_order_ok
                (to_order_dto (paid_with (transaction_uuid w.calls) req.payment_method o))),
          w',
        ))
        × (pay_order L system again id w' ≡ (answers (pay_order_conflict order_final_body), w'))
        × (cancel_order L system id w' ≡ (answers (cancel_order_conflict order_final_body), w'))
  paid_for_good req again id o w found key pending known =
      let runs = pay_order_runs req id o w found pending known in
      let stored = paid_found req id o w key in
      rw (ap (λ p. p.1) runs) (
        shown id _ (world_paid id req o w) stored,
        (refused again id _ (world_paid id req o w) stored (unfold paid_with in not_pending)).0,
        (refused again id _ (world_paid id req o w) stored (unfold paid_with in not_pending)).1,
      )
