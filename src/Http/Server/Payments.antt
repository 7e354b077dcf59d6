-- ===== src/Http/Server/Payments.antt =====
-- Requests to pay, from the HTTP request on.
use ms_ex.Inventory.Service.{SortSlice}
use ms_ex.Prelude.{
  String, ◌≡◌, refl, ◌⊎◌, inl, inr, true, Bool, Option, none, some, List, [], ◌∷◌, arith, lookup,
  str_eq_iff, if◌then◌else◌, Option-cases,
}
use ms_ex.External.{Uuid, Libs, LibLaws}
use ms_ex.Order.Data.{
  Order, status_pending_payment, method_card, method_sbp, method_credit_card, method_investor_money,
}
use ms_ex.Order.Repository.Memory.{Orders}
use ms_ex.Order.Service.{Call, World, Service}
use ms_ex.Order.Api as Api
use ms_ex.Inventory.Repository.{Part}
use ms_ex.Inventory.Repository as Catalog
use ms_ex.Payment.Acceptance.{IsKnownMethod}
use ms_ex.System.{order_service}
use ms_ex.System.Paying.{in_memory, world_paid, pay_order_runs}
use ms_ex.Http.Schemas.{PayOrderRequest}
use ms_ex.Http.Router.Prefix.{Bytes}
use ms_ex.Http.Json.Enums.{method_of_same}
use ms_ex.Http.Json.{str, ◌>>=◌}
use ms_ex.Http.Json.Requests.{
  decode_pay, pay_fields, pay_field, has_required, names_of_pay, is_valid_method, is_valid_pay,
}
use ms_ex.Http.Json.Bodies.{encode_paid}
use ms_ex.Http.Encoders.{encode_pay_order_response}
use ms_ex.Http.Server.{
  HttpLib, HttpRequest, responds, bad_params, bad_request, respond, decode_order_uuid, read_body,
  decode_pay_order_request, handle_pay_order_request,
}

is_valid_method-IsKnownMethod : (m : String) → is_valid_method m ≡ true → IsKnownMethod m
unfolding is_valid_method
is_valid_method-IsKnownMethod m h = ground (
  arith,
  h,
  str_eq_iff m method_card,
  str_eq_iff m method_sbp,
  str_eq_iff m method_credit_card,
  str_eq_iff m method_investor_money,
)

pub is_valid_method-of_known : (m : String) → IsKnownMethod m → is_valid_method m ≡ true
unfolding is_valid_method
is_valid_method-of_known m k = ground (
  arith,
  k,
  str_eq_iff m method_card,
  str_eq_iff m method_sbp,
  str_eq_iff m method_credit_card,
  str_eq_iff m method_investor_money,
)

valid_only :
    (o : Option PayOrderRequest) {req : PayOrderRequest}
    → (o >>= λ req'. if is_valid_pay req' then some req' else none) ≡ some req
    → is_valid_pay req ≡ true
valid_only o h = ground arith

decode_pay_order_request_known :
    (x : HttpLib) (r : HttpRequest) {req : PayOrderRequest}
    → decode_pay_order_request x r ≡ some req
    → IsKnownMethod req.payment_method
unfolding decode_pay_order_request is_valid_pay
decode_pay_order_request_known x r {req} h =
    is_valid_method-IsKnownMethod req.payment_method (valid_only (read_body x r >>= decode_pay) h)

module _ {R : Type 0} (x : HttpLib) (L : Libs) (svc : Service R) where
  -- A request to pay is either refused for its parameters or for its body, with nothing changed and
  -- no service called, or the handler is called with an order id and one of the four known payment
  -- methods, and the outcome is that of the handler.
  pub handle_pay_order_request-IsKnownMethod :
      (arg : Bytes) (escaped : Bool) (r : HttpRequest) (w : World R)
      → ((handle_pay_order_request x L svc arg escaped r w ≡ (bad_params, w))
          ⊎ (handle_pay_order_request x L svc arg escaped r w ≡ (bad_request, w)))
        ⊎ ((id : Uuid) × (req : PayOrderRequest) × IsKnownMethod req.payment_method
            × (handle_pay_order_request x L svc arg escaped r w
                ≡ respond (encode_pay_order_response x.json) (Api.pay_order L svc req id w)))
  unfolding handle_pay_order_request
  handle_pay_order_request-IsKnownMethod arg escaped r w =
      elim (Option-cases (decode_order_uuid x arg escaped)) [
        | inl no_id ↦ inl (inl (rw (handle_pay_order_request, no_id) refl))
        | inr (id, found) ↦ elim (Option-cases (decode_pay_order_request x r)) [
          | inl refused ↦ inl (inr (rw (handle_pay_order_request, found, refused) refl))
          | inr (req, decoded) ↦ inr (
            id,
            req,
            decode_pay_order_request_known x r decoded,
            rw (handle_pay_order_request, found, decoded) refl,
          )
        ]
      ]

module _ (x : HttpLib) (L : Libs) (laws : LibLaws L) (catalog : Catalog.Repository)
    (sort_slice : SortSlice) (transaction_uuid : List Call → Uuid) where
  decoded_method :
      (r : HttpRequest) (m : String)
      → read_body x r ≡ some (("payment_method", str m) ∷ [])
      → IsKnownMethod m
      → decode_pay_order_request x r ≡ some (record { payment_method = m })
  unfolding decode_pay_order_request decode_pay is_valid_pay pay_fields pay_field has_required
      names_of_pay
  decoded_method r m read known = rw (read, method_of_same m, is_valid_method-of_known m known) refl

  -- With the orders in memory: a request to pay whose id decodes to that of a stored pending order
  -- and whose body is read as one field with a known payment method is responded to with status 200
  -- and the transaction id that the payment service drew, the order is stored as paid by that
  -- transaction and method, and one call was sent to the payment service.
  pub handle_pay_order_request_paid :
      (arg : Bytes) (escaped : Bool) (r : HttpRequest) (id : Uuid) (m : String) (o : Order)
      (w : World Orders)
      → decode_order_uuid x arg escaped ≡ some id
      → read_body x r ≡ some (("payment_method", str m) ∷ [])
      → IsKnownMethod m
      → lookup id w.stored ≡ some o
      → o.status ≡ status_pending_payment
      → handle_pay_order_request x L
          (order_service L (in_memory catalog sort_slice transaction_uuid))
          arg
          escaped
          r
          w
        ≡ (
          responds (record {
            status = 200;
            body = ("transaction_uuid", x.json.encode_uuid (transaction_uuid w.calls)) ∷ [];
          }),
          world_paid L laws catalog sort_slice transaction_uuid id
              (record { payment_method = m })
              o
              w,
        )
  unfolding handle_pay_order_request encode_pay_order_response encode_paid
  handle_pay_order_request_paid arg escaped r id m o w found read known stored pending =
      let runs =
        pay_order_runs L laws catalog sort_slice transaction_uuid (record { payment_method = m }) id
          o w stored pending known in
      rw (handle_pay_order_request, found, decoded_method r m read known, runs) refl
