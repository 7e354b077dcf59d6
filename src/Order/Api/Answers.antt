-- ===== src/Order/Api/Answers.antt =====
-- What the handlers of order/pkg/api/handler.go answer, over any storage.
use ms_ex.Prelude.{◌≡◌, ◌≢◌, refl, sym, subst, arith, false, str_eq, str_eq_iff}
use ms_ex.Errors.{Error, sentinel, Result, ok, err, is, order_repository_not_found}
use ms_ex.External.{Uuid, Libs}
use ms_ex.Order.Data.{Order, PaymentMethod, status_pending_payment}
use ms_ex.Order.Repository.{View, IsStorage}
use ms_ex.Order.Service
use ms_ex.Order.Service.{
  World, Service, paid_with, mapped_get, with_pending, require_pending, get_error, charge,
  save_order, cancelled,
}
use ms_ex.Order.Service.Saving.{IsKeyed}
use ms_ex.Order.Service.Paying.{pay_order_ok}
use ms_ex.Order.Api.{
  answers, panics, pay_order_reply, get_order, pay_order, cancel_order, order_not_found_body,
  order_final_body, to_order_dto,
}
use ms_ex.Http.Schemas.{
  PayOrderRequest, OrderDto, get, get_order_not_found, pay_order_not_found, pay_order_conflict,
  cancel_order_not_found, cancel_order_conflict, new_opt_nil, reset,
}

pay_order_reply_err : (e : Error) → pay_order_reply (err e) ≢ panics
unfolding pay_order_reply
pay_order_reply_err e h = ground arith

pay_order_reply_paid :
    (t : Uuid) (method : PaymentMethod) (old : Order)
    → pay_order_reply (ok (paid_with t method old)) ≢ panics
unfolding pay_order_reply paid_with
pay_order_reply_paid t method old h = cc

module _ {R : Type 0} (L : Libs) (svc : Service R) (view : R → View)
    (storage : IsStorage svc.repo svc.tr_manager view) where
  -- Over a storage in which every order has the id that it is stored under, the handler of PayOrder
  -- does not dereference a nil transaction id, whatever the payment service and the storage answer.
  pub pay_order-ne-panics :
      (req : PayOrderRequest) (id : Uuid) (w : World R)
      → IsKeyed (view w.stored)
      → (pay_order L svc req id w).0 ≢ panics
  unfolding pay_order
  pay_order-ne-panics req id w keyed = from (Service.pay_order L svc id req.payment_method w).0 refl
    where
      from :
          (r : Result Order)
          → (Service.pay_order L svc id req.payment_method w).0 ≡ r
          → pay_order_reply r ≢ panics
      from (err e) h = pay_order_reply_err e
      from (ok o) h =
          let p = pay_order_ok L svc view storage id req.payment_method w keyed h in
          subst (λ x. pay_order_reply (ok x) ≢ panics) (sym p.result)
            (pay_order_reply_paid p.transaction req.payment_method p.old)

module _ {R : Type 0} (L : Libs) (svc : Service R) (id : Uuid) (w : World R) where
  -- Where the repository answers that there is no such order, the handlers of GetOrder, PayOrder
  -- and CancelOrder all answer 404, and no stored order changes and no service is called.
  pub missing_answers :
      (req : PayOrderRequest)
      → svc.repo.get id w.stored ≡ err (sentinel order_repository_not_found)
      → (get_order L svc id w ≡ (answers (get_order_not_found order_not_found_body), w))
        × (pay_order L svc req id w ≡ (answers (pay_order_not_found order_not_found_body), w))
        × (cancel_order L svc id w ≡ (answers (cancel_order_not_found order_not_found_body), w))
  unfolding get_order pay_order cancel_order Service.get_order Service.pay_order
      Service.cancel_order is get_error
  missing_answers req missing =
      (rw (missing, mapped_get) refl, rw (missing, mapped_get) refl, rw (missing, mapped_get) refl)

  -- Where the repository answers with an order that is not pending, the handlers of PayOrder and
  -- CancelOrder both answer 409, and no stored order changes and no service is called.
  pub final_answers :
      (req : PayOrderRequest) (o : Order)
      → svc.repo.get id w.stored ≡ ok o
      → o.status ≢ status_pending_payment
      → (pay_order L svc req id w ≡ (answers (pay_order_conflict order_final_body), w))
        × (cancel_order L svc id w ≡ (answers (cancel_order_conflict order_final_body), w))
  unfolding get_order pay_order cancel_order Service.get_order Service.pay_order
      Service.cancel_order require_pending is
  final_answers req o found final =
      let refused : str_eq o.status status_pending_payment ≡ false =
        ground (arith, str_eq_iff o.status status_pending_payment) in
      (rw (found, mapped_get, refused) refl, rw (found, mapped_get, refused) refl)

-- The order that a response body shows.
pub of_order_dto : OrderDto → Order
of_order_dto dto = record {
  order_uuid = dto.order_uuid;
  hull_uuid = dto.hull_uuid;
  engine_uuid = dto.engine_uuid;
  shield_uuid = get dto.shield_uuid;
  weapon_uuid = get dto.weapon_uuid;
  total_price = dto.total_price;
  transaction_uuid = get dto.transaction_uuid;
  payment_method = get dto.payment_method;
  status = dto.status;
  created_at = dto.created_at;
}

-- The body that an order is shown as holds the whole order: every field can be read back from it,
-- an absent optional value as absent.
pub of_order_dto-to_order_dto : (o : Order) → of_order_dto (to_order_dto o) ≡ o
unfolding of_order_dto to_order_dto get new_opt_nil reset
of_order_dto-to_order_dto o = ground arith
