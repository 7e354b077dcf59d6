-- ===== src/Order/Api.antt =====
-- order/pkg/api/handler.go. A handler acts on the world of the service; `panics` is the nil
-- dereference that Go would stop at.
pub mod Answers
use ms_ex.Prelude.{ℕ, String, pos, Option, none, some, if◌then◌else◌}
use ms_ex.Errors.{
  Error, Result, ok, err, is, error_text, order_not_found, order_already_final, component_not_found,
  component_out_of_stock,
}
use ms_ex.External.{Uuid, Time, Libs}
use ms_ex.Order.Data.{Order}
use ms_ex.Order.Service
use ms_ex.Order.Service.{World, Service, CreateOrderInput}
use ms_ex.Http.Schemas.{
  OptNil, new_opt_nil, reset, get, nil_uuid, empty_method, ErrorBody, CreateOrderRequest, OrderDto,
  PayOrderRequest, GetOrderRes, get_order_ok, get_order_not_found, CreateOrderRes,
  create_order_created, create_order_not_found, create_order_conflict, PayOrderRes, pay_order_paid,
  pay_order_not_found, pay_order_conflict, CancelOrderRes, cancel_order_done,
  cancel_order_not_found, cancel_order_conflict,
}

-- What a handler comes to: a response, an error for the error handler, or a panic.
pub data Reply (A : Type 0) : Type 0 where
  answers : A → Reply A
  fails : Error → Reply A
  panics : Reply A

-- `var x OptNil...; if p != nil { x = New...(*p) }`
abbrev pub to_opt_nil : {A : Type 0} → A → Option A → OptNil A
to_opt_nil zero_value none = reset zero_value
to_opt_nil zero_value (some v) = new_opt_nil v

unfoldable pub to_order_dto : Order → OrderDto
to_order_dto order = record {
  order_uuid = order.order_uuid;
  hull_uuid = order.hull_uuid;
  engine_uuid = order.engine_uuid;
  shield_uuid = to_opt_nil nil_uuid order.shield_uuid;
  weapon_uuid = to_opt_nil nil_uuid order.weapon_uuid;
  total_price = order.total_price;
  transaction_uuid = to_opt_nil nil_uuid order.transaction_uuid;
  payment_method = to_opt_nil empty_method order.payment_method;
  status = order.status;
  created_at = order.created_at;
}

unfoldable pub create_order_input : CreateOrderRequest → CreateOrderInput
create_order_input req = record {
  hull_uuid = req.hull_uuid;
  engine_uuid = req.engine_uuid;
  shield_uuid = get req.shield_uuid;
  weapon_uuid = get req.weapon_uuid;
}

abbrev pub order_not_found_body : ErrorBody
order_not_found_body = record { code = pos 404; message = "order not found" }

abbrev pub order_final_body : ErrorBody
order_final_body = record { code = pos 409; message = "order is already paid or cancelled" }

unfoldable pub get_order_reply : Result Order → Reply GetOrderRes
unfolding to_order_dto
get_order_reply (ok order) = answers (get_order_ok (to_order_dto order))
get_order_reply (err e) =
    if is e order_not_found then answers (get_order_not_found order_not_found_body) else fails e

unfoldable pub create_order_reply : Libs → Result Order → Reply CreateOrderRes
create_order_reply L (ok order) = answers (
    create_order_created
      (record { order_uuid = order.order_uuid; total_price = order.total_price }))
create_order_reply L (err e) =
    if is e component_not_found
    then answers
        (create_order_not_found (record { code = pos 404; message = error_text L.status_text e }))
    else if is e component_out_of_stock
    then answers
        (create_order_conflict (record { code = pos 409; message = error_text L.status_text e }))
    else fails e

-- `*order.TransactionUUID`
abbrev paid_reply : Option Uuid → Reply PayOrderRes
paid_reply none = panics
paid_reply (some transaction) = answers (pay_order_paid (record { transaction_uuid = transaction }))

unfoldable pub pay_order_reply : Result Order → Reply PayOrderRes
pay_order_reply (ok order) = paid_reply order.transaction_uuid
pay_order_reply (err e) =
    if is e order_not_found
    then answers (pay_order_not_found order_not_found_body)
    else if is e order_already_final
    then answers (pay_order_conflict order_final_body)
    else fails e

unfoldable pub cancel_order_reply : Result Order → Reply CancelOrderRes
cancel_order_reply (ok order) = answers cancel_order_done
cancel_order_reply (err e) =
    if is e order_not_found
    then answers (cancel_order_not_found order_not_found_body)
    else if is e order_already_final
    then answers (cancel_order_conflict order_final_body)
    else fails e

module _ {R : Type 0} (L : Libs) (svc : Service R) where
  unfoldable pub get_order : Uuid → World R → Reply GetOrderRes × World R
  unfolding get_order_reply
  get_order id w = let (r, w') = Service.get_order L svc id w in (get_order_reply r, w')

  unfoldable pub create_order :
      Uuid → Time → CreateOrderRequest → World R → Reply CreateOrderRes × World R
  unfolding create_order_reply create_order_input
  create_order id now req w =
      let (r, w') = Service.create_order L svc id now (create_order_input req) w in
      (create_order_reply L r, w')

  unfoldable pub pay_order : PayOrderRequest → Uuid → World R → Reply PayOrderRes × World R
  unfolding pay_order_reply
  pay_order req id w =
      let (r, w') = Service.pay_order L svc id req.payment_method w in (pay_order_reply r, w')

  unfoldable pub cancel_order : Uuid → World R → Reply CancelOrderRes × World R
  unfolding cancel_order_reply
  cancel_order id w = let (r, w') = Service.cancel_order L svc id w in (cancel_order_reply r, w')
