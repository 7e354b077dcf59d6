-- ===== src/Http/Client/Calls/Sendable.antt =====
-- The answers of the order service's handlers (order/pkg/api/handler.go) can be written and read.
use ms_ex.Prelude.{◌≡◌, refl, ap, Option, none, some, inl, inr, arith, Bool-cases, subst}
use ms_ex.Errors.{Result, ok, err, is, order_not_found, order_already_final}
use ms_ex.External.{Uuid, Libs}
use ms_ex.Order.Data.{Order}
use ms_ex.Order.Service as Service
use ms_ex.Order.Service.{World, Service}
use ms_ex.Order.Api as Api
use ms_ex.Order.Api.{Reply, answers, fails, panics, pay_order_reply, cancel_order_reply}
use ms_ex.Http.Schemas.{PayOrderRequest, PayOrderRes, CancelOrderRes}
use ms_ex.Http.Responses.RoundTrip.{IsSendablePay, IsSendableCancel}

-- Whatever a reply answers has the property.
abbrev pub AnswersOnly : {A : Type 0} → (A → Type 0) → Reply A → Type 0
AnswersOnly P (answers a) = P a
AnswersOnly P (fails e) = Unit
AnswersOnly P panics = Unit

paid_reply-IsSendable :
    (t : Option Uuid) (o : Order)
    → o.transaction_uuid ≡ t
    → AnswersOnly IsSendablePay (pay_order_reply (ok o))
unfolding pay_order_reply
paid_reply-IsSendable none o h = rw h tt
paid_reply-IsSendable (some t) o h = rw h tt

pay_order_reply-IsSendable : (r : Result Order) → AnswersOnly IsSendablePay (pay_order_reply r)
unfolding pay_order_reply
pay_order_reply-IsSendable (ok o) = paid_reply-IsSendable o.transaction_uuid o refl
pay_order_reply-IsSendable (err e) = elim (Bool-cases (is e order_not_found)) [
  | inl t ↦ rw t (omega arith)
  | inr f ↦ elim (Bool-cases (is e order_already_final)) [
    | inl t ↦ rw (f, t) (omega arith)
    | inr g ↦ rw (f, g) tt
  ]
]

cancel_order_reply-IsSendable :
    (r : Result Order) → AnswersOnly IsSendableCancel (cancel_order_reply r)
unfolding cancel_order_reply
cancel_order_reply-IsSendable (ok o) = tt
cancel_order_reply-IsSendable (err e) = elim (Bool-cases (is e order_not_found)) [
  | inl t ↦ rw t (omega arith)
  | inr f ↦ elim (Bool-cases (is e order_already_final)) [
    | inl t ↦ rw (f, t) (omega arith)
    | inr g ↦ rw (f, g) tt
  ]
]

pub cancel_order-IsSendable :
    {R : Type 0} (L : Libs) (svc : Service R) (id : Uuid) (res : CancelOrderRes) (w w' : World R)
    → Api.cancel_order L svc id w ≡ (answers res, w')
    → IsSendableCancel res
unfolding Api.cancel_order
cancel_order-IsSendable L svc id res w w' h =
    subst (AnswersOnly IsSendableCancel) (ap (λ p. p.0) h)
      (cancel_order_reply-IsSendable (Service.cancel_order L svc id w).0)

pub pay_order-IsSendable :
    {R : Type 0} (L : Libs) (svc : Service R) (req : PayOrderRequest) (id : Uuid)
    (res : PayOrderRes) (w w' : World R)
    → Api.pay_order L svc req id w ≡ (answers res, w')
    → IsSendablePay res
unfolding Api.pay_order
pay_order-IsSendable L svc req id res w w' h =
    subst (AnswersOnly IsSendablePay) (ap (λ p. p.0) h)
      (pay_order_reply-IsSendable (Service.pay_order L svc id req.payment_method w).0)
