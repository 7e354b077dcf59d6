-- ===== src/Order/Service.antt =====
-- order/pkg/service/service.go. A method acts on the stored orders and on the record of the calls
-- sent to the other services; uuid.New and time.Now come as arguments.
pub mod Saving
pub mod Paying
pub mod Pricing
pub mod Creating
pub mod Cancelling
pub mod Life
pub mod Trace
use ms_ex.Prelude.{
  String, ℤ, pos, leb_ℤ, add_int64, Option, none, some, List, [], ◌∷◌, ◌++◌, ◌==◌, str_eq,
  if◌then◌else◌,
}
use ms_ex.Errors.{
  Error, sentinel, with_detail, foreign, Result, ok, err, is, order_repository_not_found,
  order_not_found, order_already_final, component_not_found, component_out_of_stock,
}
use ms_ex.External.{Uuid, Time, Libs, not_found}
use ms_ex.Wire.{
  ProtoPart, ListPartsRequest, ProtoPayOrderRequest, ProtoPaymentMethod, part_type_unspecified,
  payment_method_unspecified, payment_method_card, payment_method_sbp, payment_method_credit_card,
  payment_method_investor_money,
}
use ms_ex.Action.{Action, lift, ◌>>=◌, ◌>>◌, as_result}
use ms_ex.Order.Data.{
  Order, PaymentMethod, status_pending_payment, status_paid, status_cancelled, method_card,
  method_sbp, method_credit_card, method_investor_money,
}
use ms_ex.Order.Repository.{Repository, TrManager}

-- A call that the service sent to another service.
pub data Call : Type 0 where
  list_parts_call : ListPartsRequest → Call
  pay_order_call : ProtoPayOrderRequest → Call

pub record World (R : Type 0) : Type 0 where
  pub stored : R
  -- The newest first.
  pub calls : List Call

-- The answers of the remote services may depend on what was sent to them before.
pub record Service (R : Type 0) : Type 0 where
  pub inventory_client : List Call → ListPartsRequest → Result (List ProtoPart)
  pub payment_client : List Call → ProtoPayOrderRequest → Result String
  pub repo : Repository R
  pub tr_manager : TrManager R

pub record CreateOrderInput : Type 0 where
  pub hull_uuid : Uuid
  pub engine_uuid : Uuid
  pub shield_uuid : Option Uuid
  pub weapon_uuid : Option Uuid

unfoldable pub payment_method_to_proto : PaymentMethod → ProtoPaymentMethod
payment_method_to_proto pm =
    if str_eq pm method_card
    then payment_method_card
    else if str_eq pm method_sbp
    then payment_method_sbp
    else if str_eq pm method_credit_card
    then payment_method_credit_card
    else if str_eq pm method_investor_money
    then payment_method_investor_money
    else payment_method_unspecified

-- append(uuids, p.String()) under `if p != nil`
abbrev pub append_opt : Libs → List String → Option Uuid → List String
append_opt L uuids none = uuids
append_opt L uuids (some id) = uuids ++ L.uuid_string id ∷ []

unfoldable pub component_uuids : Libs → CreateOrderInput → List String
component_uuids L input =
    append_opt L
      (append_opt L (L.uuid_string input.hull_uuid ∷ L.uuid_string input.engine_uuid ∷ [])
        input.shield_uuid)
      input.weapon_uuid

-- The branch on the error of ListParts.
unfoldable pub list_parts_error : Libs → Error → Error
list_parts_error L e = elim (L.from_error e) [
  | none ↦ e
  | some (code, message) ↦
      if code == not_found then with_detail (sentinel component_not_found) message else e
]

-- The loop over the parts.
unfoldable pub price_loop : ℤ → List ProtoPart → Result ℤ
price_loop total [] = ok total
price_loop total (part ∷ parts) =
    if leb_ℤ part.stock_quantity (pos 0)
    then err (with_detail (sentinel component_out_of_stock) part.uuid)
    else price_loop (add_int64 total part.price) parts

unfoldable pub new_order : Uuid → Time → CreateOrderInput → ℤ → Order
new_order id now input total = record {
  order_uuid = id;
  hull_uuid = input.hull_uuid;
  engine_uuid = input.engine_uuid;
  shield_uuid = input.shield_uuid;
  weapon_uuid = input.weapon_uuid;
  total_price = total;
  transaction_uuid = none;
  payment_method = none;
  status = status_pending_payment;
  created_at = now;
}

-- The response of ListParts, or the error that CreateOrder makes of its error.
unfoldable pub checked_parts : Libs → Result (List ProtoPart) → Result (List ProtoPart)
checked_parts L (ok parts) = ok parts
checked_parts L (err e) = err (list_parts_error L e)

-- The branches on the error of Get.
unfoldable pub get_error : Libs → Uuid → Error → Error
get_error L id e =
    if is e order_repository_not_found
    then with_detail (sentinel order_not_found) (L.uuid_string id)
    else e

abbrev pub mapped_get : Libs → Uuid → Result Order → Result Order
mapped_get L id (ok order) = ok order
mapped_get L id (err e) = err (get_error L id e)

-- `if order.Status != pending { return ErrOrderAlreadyFinal }`
unfoldable pub require_pending : Libs → Uuid → Order → Result Order
require_pending L id order =
    if str_eq order.status status_pending_payment
    then ok order
    else err (with_detail (sentinel order_already_final) (L.uuid_string id))

unfoldable pub pay_request : Libs → Order → PaymentMethod → ProtoPayOrderRequest
pay_request L order method = record {
  order_uuid = L.uuid_string order.order_uuid;
  payment_method = payment_method_to_proto method;
}

-- uuid.Parse(resp.GetTransactionUuid())
unfoldable pub parse_transaction : Libs → String → Result Uuid
parse_transaction L text = elim (L.uuid_parse text) [
  | none ↦ err (foreign (L.uuid_error text))
  | some id ↦ ok id
]

-- order.Status, order.TransactionUUID and order.PaymentMethod as PayOrder sets them.
unfoldable pub paid_with : Uuid → PaymentMethod → Order → Order
paid_with transaction method order = record order {
  status = status_paid;
  transaction_uuid = some transaction;
  payment_method = some method;
}

unfoldable pub cancelled : Order → Order
cancelled order = record order { status = status_cancelled }

module _ {R : Type 0} (L : Libs) (svc : Service R) where
  unfoldable pub send_list_parts : ListPartsRequest → Action (World R) (List ProtoPart)
  send_list_parts request w = (
    checked_parts L (svc.inventory_client w.calls request),
    record w { calls = list_parts_call request ∷ w.calls },
  )

  unfoldable pub send_pay_order : ProtoPayOrderRequest → Action (World R) String
  send_pay_order request w =
      (svc.payment_client w.calls request, record w { calls = pay_order_call request ∷ w.calls })

  -- s.trManager.Do(ctx, func(ctx) error { return s.repo.Save(ctx, order) }), then the order.
  unfoldable pub save_order : Order → Action (World R) Order
  save_order order w =
      let done = svc.tr_manager.run (svc.repo.save order) w.stored in
      (as_result order done.0, record w { stored = done.1 })

  unfoldable pub create_order : Uuid → Time → CreateOrderInput → Action (World R) Order
  create_order id now input = do
    parts ←
        send_list_parts
          (record { part_type = part_type_unspecified; uuids = component_uuids L input })
    total ← lift (price_loop (pos 0) parts)
    save_order (new_order id now input total)

  unfoldable pub get_order : Uuid → Action (World R) Order
  get_order id w = (mapped_get L id (svc.repo.get id w.stored), w)

  -- PayOrder once the order is known to be pending.
  unfoldable pub charge : PaymentMethod → Order → Action (World R) Order
  charge method order = do
    text ← send_pay_order (pay_request L order method)
    transaction ← lift (parse_transaction L text)
    save_order (paid_with transaction method order)

  -- How PayOrder and CancelOrder begin: read the order, and go on only if it is pending.
  unfoldable pub with_pending : Uuid → (Order → Action (World R) Order) → Action (World R) Order
  with_pending id next = do
    order ← get_order id
    pending ← lift (require_pending L id order)
    next pending

  unfoldable pub pay_order : Uuid → PaymentMethod → Action (World R) Order
  unfolding with_pending
  pay_order id method = with_pending id (charge method)

  unfoldable pub cancel_order : Uuid → Action (World R) Order
  unfolding with_pending
  cancel_order id = with_pending id (λ order. save_order (cancelled order))
