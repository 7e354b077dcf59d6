-- ===== src/Http/Responses/RoundTrip.antt =====
-- Writing a response and reading it back: oas_response_encoders_gen.go against
-- oas_response_decoders_gen.go.
use ms_ex.Prelude.{ℕ, IsInt64, ◌≡◌, refl, true, some}
use ms_ex.Http.Schemas.{
  ErrorBody, OrderDto, GetOrderRes, get_order_ok, get_order_bad_request, get_order_not_found,
  get_order_internal, CreateOrderRes, create_order_created, create_order_bad_request,
  create_order_not_found, create_order_conflict, create_order_internal, PayOrderRes, pay_order_paid,
  pay_order_bad_request, pay_order_not_found, pay_order_conflict, pay_order_internal,
  CancelOrderRes, cancel_order_done, cancel_order_bad_request, cancel_order_not_found,
  cancel_order_conflict, cancel_order_internal,
}
use ms_ex.Http.Json.{JsonLaws, ◌>>=◌}
use ms_ex.Http.Json.RoundTrip.{IsNormalDto, in_seconds, decode-encode_fields}
use ms_ex.Http.Json.Aliases.{decode_alias}
use ms_ex.Http.Json.Bodies.{
  is_valid_dto, decode_error-encode_error, decode_created-encode_created, decode_paid-encode_paid,
}
use ms_ex.Http.Encoders.{
  Response, encode_get_order_response, encode_create_order_response, encode_pay_order_response,
  encode_cancel_order_response, error_response,
}
use ms_ex.Http.Server.{HttpLib}
use ms_ex.Http.Responses.{
  HttpResponse, json_body, refused_body, decode_cancel_error_response, decode_create_error_response,
  decode_get_error_response, decode_pay_error_response, decode_get_order_response,
  decode_create_order_response, decode_pay_order_response, decode_cancel_order_response,
}

-- The response that the client reads is the one that was written: its status, its content type
-- without parameters, and a body that is read as the fields that were written.
pub record Delivered (x : HttpLib) (r : Response) (resp : HttpResponse) : Type 0 where
  pub status : resp.status ≡ r.status
  pub media_type : resp.media_type ≡ some "application/json"
  pub body : (resp.body >>= x.parse_object) ≡ some r.body

-- An order whose DTO survives writing, and passes the validation.
pub record IsReadable (dto : OrderDto) : Type 0 where
  pub normal : IsNormalDto dto
  pub valid : is_valid_dto dto ≡ true

-- What the client gets for a response.
abbrev pub as_read : GetOrderRes → GetOrderRes
as_read (get_order_ok dto) = get_order_ok (in_seconds dto)
as_read (get_order_bad_request e) = get_order_bad_request e
as_read (get_order_not_found e) = get_order_not_found e
as_read (get_order_internal e) = get_order_internal e

is_valid_dto-in_seconds : (dto : OrderDto) → is_valid_dto (in_seconds dto) ≡ is_valid_dto dto
unfolding is_valid_dto
is_valid_dto-in_seconds dto = refl

-- The responses whose numbers are in the range of an int64, and whose order can be read.
abbrev pub IsSendableCancel : CancelOrderRes → Type 0
IsSendableCancel cancel_order_done = Unit
IsSendableCancel (cancel_order_bad_request e) = IsInt64 e.code
IsSendableCancel (cancel_order_not_found e) = IsInt64 e.code
IsSendableCancel (cancel_order_conflict e) = IsInt64 e.code
IsSendableCancel (cancel_order_internal e) = IsInt64 e.code

abbrev pub IsSendableCreate : CreateOrderRes → Type 0
IsSendableCreate (create_order_created s) = IsInt64 s.total_price
IsSendableCreate (create_order_bad_request e) = IsInt64 e.code
IsSendableCreate (create_order_not_found e) = IsInt64 e.code
IsSendableCreate (create_order_conflict e) = IsInt64 e.code
IsSendableCreate (create_order_internal e) = IsInt64 e.code

abbrev pub IsSendableGet : GetOrderRes → Type 0
IsSendableGet (get_order_ok dto) = IsReadable dto
IsSendableGet (get_order_bad_request e) = IsInt64 e.code
IsSendableGet (get_order_not_found e) = IsInt64 e.code
IsSendableGet (get_order_internal e) = IsInt64 e.code

abbrev pub IsSendablePay : PayOrderRes → Type 0
IsSendablePay (pay_order_paid s) = Unit
IsSendablePay (pay_order_bad_request e) = IsInt64 e.code
IsSendablePay (pay_order_not_found e) = IsInt64 e.code
IsSendablePay (pay_order_conflict e) = IsInt64 e.code
IsSendablePay (pay_order_internal e) = IsInt64 e.code

module _ (x : HttpLib) (laws : JsonLaws x.json) where
  json_body-Delivered :
      (r : Response) (resp : HttpResponse) → Delivered x r resp → json_body x resp ≡ some r.body
  unfolding json_body
  json_body-Delivered r resp d = rw (d.media_type, d.body) refl

  refused_body-Delivered :
      {A : Type 0} (make : ErrorBody → A) (n : ℕ) (e : ErrorBody) (resp : HttpResponse)
      → IsInt64 e.code
      → Delivered x (error_response n e) resp
      → refused_body x (λ J. decode_alias J make) resp ≡ some (make e)
  unfolding refused_body decode_alias
  refused_body-Delivered make n e resp h d =
      rw
        (json_body-Delivered (error_response n e) resp d, decode_error-encode_error x.json laws e h)
        refl

  pub decode_cancel_order_response-encode :
      (res : CancelOrderRes) (resp : HttpResponse)
      → IsSendableCancel res
      → Delivered x (encode_cancel_order_response res) resp
      → decode_cancel_order_response x resp ≡ some res
  unfolding decode_cancel_order_response decode_cancel_error_response encode_cancel_order_response
  decode_cancel_order_response-encode cancel_order_done resp h d =
      rw (d.status, json_body-Delivered _ resp d) refl
  decode_cancel_order_response-encode (cancel_order_bad_request e) resp h d =
      rw (d.status, refused_body-Delivered cancel_order_bad_request 400 e resp h d) refl
  decode_cancel_order_response-encode (cancel_order_not_found e) resp h d =
      rw (d.status, refused_body-Delivered cancel_order_not_found 404 e resp h d) refl
  decode_cancel_order_response-encode (cancel_order_conflict e) resp h d =
      rw (d.status, refused_body-Delivered cancel_order_conflict 409 e resp h d) refl
  decode_cancel_order_response-encode (cancel_order_internal e) resp h d =
      rw (d.status, refused_body-Delivered cancel_order_internal 500 e resp h d) refl

  pub decode_create_order_response-encode :
      (res : CreateOrderRes) (resp : HttpResponse)
      → IsSendableCreate res
      → Delivered x (encode_create_order_response x.json res) resp
      → decode_create_order_response x resp ≡ some res
  unfolding decode_create_order_response decode_create_error_response encode_create_order_response
  decode_create_order_response-encode (create_order_created s) resp h d =
      rw (d.status, json_body-Delivered _ resp d, decode_created-encode_created x.json laws s h)
        refl
  decode_create_order_response-encode (create_order_bad_request e) resp h d =
      rw (d.status, refused_body-Delivered create_order_bad_request 400 e resp h d) refl
  decode_create_order_response-encode (create_order_not_found e) resp h d =
      rw (d.status, refused_body-Delivered create_order_not_found 404 e resp h d) refl
  decode_create_order_response-encode (create_order_conflict e) resp h d =
      rw (d.status, refused_body-Delivered create_order_conflict 409 e resp h d) refl
  decode_create_order_response-encode (create_order_internal e) resp h d =
      rw (d.status, refused_body-Delivered create_order_internal 500 e resp h d) refl

  -- For a response of GetOrder, the order or one of the errors: if the order passes the validation
  -- and has optional values as the constructors of their type make them, and the numbers are in the
  -- range of an int64, then the client decodes from the delivered response what the server encoded,
  -- the creation time of the order cut to whole seconds.
  pub decode_get_order_response-encode :
      (res : GetOrderRes) (resp : HttpResponse)
      → IsSendableGet res
      → Delivered x (encode_get_order_response x.json res) resp
      → decode_get_order_response x resp ≡ some (as_read res)
  unfolding decode_get_order_response decode_get_error_response encode_get_order_response
  decode_get_order_response-encode (get_order_ok dto) resp h d =
      rw
        (
          d.status,
          json_body-Delivered _ resp d,
          decode-encode_fields x.json laws dto h.normal,
          is_valid_dto-in_seconds dto,
          h.valid,
        )
        refl
  decode_get_order_response-encode (get_order_bad_request e) resp h d =
      rw (d.status, refused_body-Delivered get_order_bad_request 400 e resp h d) refl
  decode_get_order_response-encode (get_order_not_found e) resp h d =
      rw (d.status, refused_body-Delivered get_order_not_found 404 e resp h d) refl
  decode_get_order_response-encode (get_order_internal e) resp h d =
      rw (d.status, refused_body-Delivered get_order_internal 500 e resp h d) refl

  pub decode_pay_order_response-encode :
      (res : PayOrderRes) (resp : HttpResponse)
      → IsSendablePay res
      → Delivered x (encode_pay_order_response x.json res) resp
      → decode_pay_order_response x resp ≡ some res
  unfolding decode_pay_order_response decode_pay_error_response encode_pay_order_response
  decode_pay_order_response-encode (pay_order_paid s) resp h d =
      rw (d.status, json_body-Delivered _ resp d, decode_paid-encode_paid x.json laws s) refl
  decode_pay_order_response-encode (pay_order_bad_request e) resp h d =
      rw (d.status, refused_body-Delivered pay_order_bad_request 400 e resp h d) refl
  decode_pay_order_response-encode (pay_order_not_found e) resp h d =
      rw (d.status, refused_body-Delivered pay_order_not_found 404 e resp h d) refl
  decode_pay_order_response-encode (pay_order_conflict e) resp h d =
      rw (d.status, refused_body-Delivered pay_order_conflict 409 e resp h d) refl
  decode_pay_order_response-encode (pay_order_internal e) resp h d =
      rw (d.status, refused_body-Delivered pay_order_internal 500 e resp h d) refl
