-- ===== src/Http/Encoders.antt =====
-- shared/pkg/openapi/order/v1/oas_response_encoders_gen.go: the status and the body that each response
-- is written with, and the bodies' fields of oas_json_gen.go.
use ms_ex.Prelude.{
  ℕ, String, pos, ◌<◌, ◌≡◌, refl, inl, inr, Option, none, some, [], arith, Bool-cases,
}
use ms_ex.Errors.{
  Result, ok, err, is, order_not_found, order_already_final, component_not_found,
  component_out_of_stock,
}
use ms_ex.External.{Uuid, Libs}
use ms_ex.Order.Data.{Order}
use ms_ex.Order.Api.{
  Reply, answers, fails, panics, get_order_reply, create_order_reply, pay_order_reply,
  cancel_order_reply,
}
use ms_ex.Http.Schemas.{
  ErrorBody, GetOrderRes, get_order_ok, get_order_bad_request, get_order_not_found,
  get_order_internal, CreateOrderRes, create_order_created, create_order_bad_request,
  create_order_not_found, create_order_conflict, create_order_internal, PayOrderRes, pay_order_paid,
  pay_order_bad_request, pay_order_not_found, pay_order_conflict, pay_order_internal,
  CancelOrderRes, cancel_order_done, cancel_order_bad_request, cancel_order_not_found,
  cancel_order_conflict, cancel_order_internal,
}
use ms_ex.Http.Json.{JsonObject, JsonLib}
use ms_ex.Http.Json.Bodies.{encode_error, encode_created, encode_paid}
use ms_ex.Http.Json.Dto.{encode_fields}

-- What is written: w.WriteHeader(status), and the body.
pub record Response : Type 0 where
  pub status : ℕ
  pub body : JsonObject

abbrev pub error_response : ℕ → ErrorBody → Response
error_response status e = record { status = status; body = encode_error e }

-- encodeCancelOrderResponse
unfoldable pub encode_cancel_order_response : CancelOrderRes → Response
encode_cancel_order_response cancel_order_done = record { status = 200; body = [] }
encode_cancel_order_response (cancel_order_bad_request e) = error_response 400 e
encode_cancel_order_response (cancel_order_not_found e) = error_response 404 e
encode_cancel_order_response (cancel_order_conflict e) = error_response 409 e
encode_cancel_order_response (cancel_order_internal e) = error_response 500 e

module _ (J : JsonLib) where
  -- encodeCreateOrderResponse
  unfoldable pub encode_create_order_response : CreateOrderRes → Response
  encode_create_order_response (create_order_created s) = record {
    status = 201;
    body = encode_created J s;
  }
  encode_create_order_response (create_order_bad_request e) = error_response 400 e
  encode_create_order_response (create_order_not_found e) = error_response 404 e
  encode_create_order_response (create_order_conflict e) = error_response 409 e
  encode_create_order_response (create_order_internal e) = error_response 500 e

  -- encodeGetOrderResponse
  unfoldable pub encode_get_order_response : GetOrderRes → Response
  encode_get_order_response (get_order_ok dto) = record { status = 200; body = encode_fields J dto }
  encode_get_order_response (get_order_bad_request e) = error_response 400 e
  encode_get_order_response (get_order_not_found e) = error_response 404 e
  encode_get_order_response (get_order_internal e) = error_response 500 e

  -- encodePayOrderResponse
  unfoldable pub encode_pay_order_response : PayOrderRes → Response
  encode_pay_order_response (pay_order_paid s) = record { status = 200; body = encode_paid J s }
  encode_pay_order_response (pay_order_bad_request e) = error_response 400 e
  encode_pay_order_response (pay_order_not_found e) = error_response 404 e
  encode_pay_order_response (pay_order_conflict e) = error_response 409 e
  encode_pay_order_response (pay_order_internal e) = error_response 500 e

-- A response that tells of success, or one whose body is an error with the status as its code.
pub data Agrees (r : Response) : Type 0 where
  succeeded : r.status < 300 → Agrees r
  refused :
      (message : String)
      → r.body ≡ encode_error (record { code = pos r.status; message = message })
      → Agrees r

-- A property of the response that a handler's reply is written as, where there is one.
pub data Written {A : Type 0} (encode : A → Response) (P : Response → Type 0)
    : Reply A → Type 0 where
  written : (a : A) → P (encode a) → Written encode P (answers a)
  failed : (e : _) → Written encode P (fails e)
  panicked : Written encode P panics

module _ (J : JsonLib) (L : Libs) where
  get_order-Agrees :
      (r : Result Order) → Written (encode_get_order_response J) Agrees (get_order_reply r)
  unfolding get_order_reply encode_get_order_response
  get_order-Agrees (ok o) = written _ (succeeded (omega arith))
  get_order-Agrees (err e) = elim (Bool-cases (is e order_not_found)) [
    | inl t ↦ rw t (written _ (refused _ refl))
    | inr f ↦ rw f (failed e)
  ]

  create_order-Agrees :
      (r : Result Order) → Written (encode_create_order_response J) Agrees (create_order_reply L r)
  unfolding create_order_reply encode_create_order_response
  create_order-Agrees (ok o) = written _ (succeeded (omega arith))
  create_order-Agrees (err e) = elim (Bool-cases (is e component_not_found)) [
    | inl t ↦ rw t (written _ (refused _ refl))
    | inr f ↦ elim (Bool-cases (is e component_out_of_stock)) [
      | inl t ↦ rw (f, t) (written _ (refused _ refl))
      | inr g ↦ rw (f, g) (failed e)
    ]
  ]

  paid-Agrees :
      (t : Option Uuid) (o : Order)
      → o.transaction_uuid ≡ t
      → Written (encode_pay_order_response J) Agrees (pay_order_reply (ok o))
  unfolding pay_order_reply encode_pay_order_response
  paid-Agrees none o h = rw h panicked
  paid-Agrees (some t) o h = rw h (written _ (succeeded (omega arith)))

  pay_order-Agrees :
      (r : Result Order) → Written (encode_pay_order_response J) Agrees (pay_order_reply r)
  unfolding pay_order_reply encode_pay_order_response
  pay_order-Agrees (ok o) = paid-Agrees o.transaction_uuid o refl
  pay_order-Agrees (err e) = elim (Bool-cases (is e order_not_found)) [
    | inl t ↦ rw t (written _ (refused _ refl))
    | inr f ↦ elim (Bool-cases (is e order_already_final)) [
      | inl t ↦ rw (f, t) (written _ (refused _ refl))
      | inr g ↦ rw (f, g) (failed e)
    ]
  ]

  cancel_order-Agrees :
      (r : Result Order) → Written encode_cancel_order_response Agrees (cancel_order_reply r)
  unfolding cancel_order_reply encode_cancel_order_response
  cancel_order-Agrees (ok o) = written _ (succeeded (omega arith))
  cancel_order-Agrees (err e) = elim (Bool-cases (is e order_not_found)) [
    | inl t ↦ rw t (written _ (refused _ refl))
    | inr f ↦ elim (Bool-cases (is e order_already_final)) [
      | inl t ↦ rw (f, t) (written _ (refused _ refl))
      | inr g ↦ rw (f, g) (failed e)
    ]
  ]

  -- Whatever the service returns to the four handlers, the response that is written, if one is,
  -- either has a status below 300, or its body is an error whose code is the status.
  pub error_code-Agrees :
      (r : Result Order)
      → Written (encode_get_order_response J) Agrees (get_order_reply r)
        × (Written (encode_create_order_response J) Agrees (create_order_reply L r)
            × (Written (encode_pay_order_response J) Agrees (pay_order_reply r)
                × Written encode_cancel_order_response Agrees (cancel_order_reply r)))
  error_code-Agrees r =
      (get_order-Agrees r, (create_order-Agrees r, (pay_order-Agrees r, cancel_order-Agrees r)))
