-- ===== src/Payment/Acceptance.antt =====
-- Requests to pay as payment/pkg takes them, and as the order service sends them.
use ms_ex.Prelude.{
  String, ◌≡◌, ◌≢◌, ◌↔◌, ◌⊎◌, inl, inr, refl, ap, some, arith, str_eq_iff, ==_iff, Option-cases,
}
use ms_ex.Errors.{Error, status, Result, ok, err, is, error_text}
use ms_ex.External.{Uuid, Libs, LibLaws, invalid_argument}
use ms_ex.Wire.{ProtoPayOrderRequest, ProtoPaymentMethod, payment_method_unspecified}
use ms_ex.Payment.Service
use ms_ex.Payment.Api
use ms_ex.Order.Data.{
  Order, PaymentMethod, method_card, method_sbp, method_credit_card, method_investor_money,
}
use ms_ex.Order.Service.{payment_method_to_proto, pay_request}

-- The request names an order by a well-formed id, and a payment method.
pub record Accepted (L : Libs) (order_uuid : String) (method : ProtoPaymentMethod) : Type 0 where
  pub nonempty : order_uuid ≢ ""
  pub specified : method ≢ payment_method_unspecified
  pub id : Uuid
  pub parsed : L.uuid_parse order_uuid ≡ some id

module _ (L : Libs) (transaction : Uuid) where
  -- PayOrder of the payment service returns the new transaction id exactly if the order id is not
  -- empty and parses and the payment method is not the unspecified one.
  pub pay_order-Accepted :
      (order_uuid : String) (method : ProtoPaymentMethod)
      → (Service.pay_order L transaction order_uuid method ≡ ok (L.uuid_string transaction))
        ↔ Accepted L order_uuid method
  unfolding Service.pay_order
  pay_order-Accepted order_uuid method = (accepted, answered)
    where
      accepted :
          Service.pay_order L transaction order_uuid method ≡ ok (L.uuid_string transaction)
          → Accepted L order_uuid method
      accepted h = elim (Option-cases (L.uuid_parse order_uuid)) [
        | inl missing ↦ absurd (ground (arith, h, missing))
        | inr (id, parsed) ↦ record {
          nonempty = λ e. ground (arith, h, str_eq_iff order_uuid "");
          specified = λ e. ground (arith, h, ==_iff method payment_method_unspecified);
          id = id;
          parsed = parsed;
        }
      ]

      answered :
          Accepted L order_uuid method
          → Service.pay_order L transaction order_uuid method ≡ ok (L.uuid_string transaction)
      answered a = ground (
        arith,
        a.nonempty,
        a.specified,
        a.parsed,
        str_eq_iff order_uuid "",
        ==_iff method payment_method_unspecified,
      )

  refused_status :
      (order_uuid : String) (method : ProtoPaymentMethod) {e : Error}
      → Service.pay_order L transaction order_uuid method ≡ err e
      → Api.to_status_err L e ≡ status invalid_argument (error_text L.status_text e)
  unfolding Api.to_status_err Service.pay_order is
  refused_status order_uuid method h = ground arith

  -- If the payment server returns an error, it is a status of the code InvalidArgument.
  pub pay_order_refused :
      (request : ProtoPayOrderRequest) {e : Error}
      → Api.pay_order L transaction request ≡ err e
      → (message : String) × (e ≡ status invalid_argument message)
  unfolding Api.pay_order
  pay_order_refused request {e} h =
      from (Service.pay_order L transaction request.order_uuid request.payment_method) refl h
    where
      from :
          (r : Result String)
          → Service.pay_order L transaction request.order_uuid request.payment_method ≡ r
          → Api.response L r ≡ err e
          → (message : String) × (e ≡ status invalid_argument message)
      from (ok text) eq k = cc
      from (err e') eq k = (
        error_text L.status_text e',
        cc (k, refused_status request.order_uuid request.payment_method eq),
      )

abbrev pub IsKnownMethod : PaymentMethod → Type 0
IsKnownMethod m =
    (m ≡ method_card)
    ⊎ ((m ≡ method_sbp) ⊎ ((m ≡ method_credit_card) ⊎ (m ≡ method_investor_money)))

-- A payment method of the order service is sent as other than unspecified exactly if it is one of
-- the four known methods.
pub payment_method_to_proto_known :
    (m : PaymentMethod) → (payment_method_to_proto m ≢ payment_method_unspecified) ↔ IsKnownMethod m
unfolding payment_method_to_proto
payment_method_to_proto_known m = (
  λ h. ground (
    arith,
    h,
    str_eq_iff m method_card,
    str_eq_iff m method_sbp,
    str_eq_iff m method_credit_card,
    str_eq_iff m method_investor_money,
  ),
  λ k e. ground (
    arith,
    k,
    e,
    str_eq_iff m method_card,
    str_eq_iff m method_sbp,
    str_eq_iff m method_credit_card,
    str_eq_iff m method_investor_money,
  ),
)

module _ (L : Libs) (laws : LibLaws L) (transaction : Uuid) (order : Order)
    (method : PaymentMethod) where
  -- For a known payment method, the payment server answers the request that the order service sends
  -- for an order with the new transaction id.
  pub pay_request_accepted :
      IsKnownMethod method
      → Api.pay_order L transaction (pay_request L order method) ≡ ok (L.uuid_string transaction)
  unfolding Api.pay_order pay_request
  pay_request_accepted known =
      let accepted : Accepted L (L.uuid_string order.order_uuid) (payment_method_to_proto method) =
        record {
          nonempty = λ e. cc (
            laws.string_nonempty order.order_uuid,
            (str_eq_iff (L.uuid_string order.order_uuid) "").1 e,
          );
          specified = (payment_method_to_proto_known method).1 known;
          id = order.order_uuid;
          parsed = laws.parse_string order.order_uuid;
        } in
      ap (Api.response L) ((pay_order-Accepted L transaction _ _).1 accepted)
