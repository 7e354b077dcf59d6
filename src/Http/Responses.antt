-- ===== src/Http/Responses.antt =====
-- shared/pkg/openapi/order/v1/oas_response_decoders_gen.go: how the client reads a response. `none`
-- is an error.
pub mod RoundTrip
use ms_ex.Prelude.{ℕ, String, Option, none, some, ◌==◌, str_eq, if◌then◌else◌}
use ms_ex.Http.Schemas.{
  ErrorBody, GetOrderRes, get_order_ok, get_order_bad_request, get_order_not_found,
  get_order_internal, CreateOrderRes, create_order_created, create_order_bad_request,
  create_order_not_found, create_order_conflict, create_order_internal, PayOrderRes, pay_order_paid,
  pay_order_bad_request, pay_order_not_found, pay_order_conflict, pay_order_internal,
  CancelOrderRes, cancel_order_done, cancel_order_bad_request, cancel_order_not_found,
  cancel_order_conflict, cancel_order_internal,
}
use ms_ex.Http.Router.Prefix.{Bytes}
use ms_ex.Http.Json.{JsonObject, JsonLib, ◌>>=◌}
use ms_ex.Http.Json.Aliases.{
  decode_cancel_order_bad_request, decode_cancel_order_conflict, decode_cancel_order_internal,
  decode_cancel_order_not_found, decode_create_order_bad_request, decode_create_order_conflict,
  decode_create_order_internal, decode_create_order_not_found, decode_get_order_bad_request,
  decode_get_order_internal, decode_get_order_not_found, decode_pay_order_bad_request,
  decode_pay_order_conflict, decode_pay_order_internal, decode_pay_order_not_found,
}
use ms_ex.Http.Json.Dto.{decode}
use ms_ex.Http.Json.Bodies.{decode_created, decode_paid, is_valid_dto}
use ms_ex.Http.Server.{HttpLib}

-- What is read of a response: its status, mime.ParseMediaType of its Content-Type, and io.ReadAll of
-- its body.
pub record HttpResponse : Type 0 where
  pub status : ℕ
  pub media_type : Option String
  pub body : Option Bytes

module _ (x : HttpLib) where
  -- The part that all cases share: the fields of the one JSON object that the body consists of.
  unfoldable pub json_body : HttpResponse → Option JsonObject
  json_body resp = resp.media_type >>= λ ct.
      if str_eq ct "application/json" then (resp.body >>= x.parse_object) else none

  -- A case that tells of a failure, with the Decode of its type.
  unfoldable pub refused_body :
      {A : Type 0} → (JsonLib → JsonObject → Option A) → HttpResponse → Option A
  unfolding json_body
  refused_body decode_type resp = json_body resp >>= decode_type x.json

  -- The cases of decodeCancelOrderResponse behind that of status 200.
  unfoldable pub decode_cancel_error_response : HttpResponse → Option CancelOrderRes
  unfolding refused_body
  decode_cancel_error_response resp =
      if resp.status == 400
      then refused_body decode_cancel_order_bad_request resp
      else if resp.status == 404
      then refused_body decode_cancel_order_not_found resp
      else if resp.status == 409
      then refused_body decode_cancel_order_conflict resp
      else if resp.status == 500
      then refused_body decode_cancel_order_internal resp
      else none

  -- decodeCancelOrderResponse, with (*CancelOrderResponse).Decode, which skips every field.
  unfoldable pub decode_cancel_order_response : HttpResponse → Option CancelOrderRes
  unfolding json_body decode_cancel_error_response
  decode_cancel_order_response resp =
      if resp.status == 200
      then (json_body resp >>= λ fields. some cancel_order_done)
      else decode_cancel_error_response resp

  -- The cases of decodeCreateOrderResponse behind that of status 201.
  unfoldable pub decode_create_error_response : HttpResponse → Option CreateOrderRes
  unfolding refused_body
  decode_create_error_response resp =
      if resp.status == 400
      then refused_body decode_create_order_bad_request resp
      else if resp.status == 404
      then refused_body decode_create_order_not_found resp
      else if resp.status == 409
      then refused_body decode_create_order_conflict resp
      else if resp.status == 500
      then refused_body decode_create_order_internal resp
      else none

  -- decodeCreateOrderResponse
  unfoldable pub decode_create_order_response : HttpResponse → Option CreateOrderRes
  unfolding json_body decode_create_error_response
  decode_create_order_response resp =
      if resp.status == 201
      then (json_body resp >>= decode_created x.json >>= λ s. some (create_order_created s))
      else decode_create_error_response resp

  -- The cases of decodeGetOrderResponse behind that of status 200.
  unfoldable pub decode_get_error_response : HttpResponse → Option GetOrderRes
  unfolding refused_body
  decode_get_error_response resp =
      if resp.status == 400
      then refused_body decode_get_order_bad_request resp
      else if resp.status == 404
      then refused_body decode_get_order_not_found resp
      else if resp.status == 500
      then refused_body decode_get_order_internal resp
      else none

  -- decodeGetOrderResponse, which also validates the order.
  unfoldable pub decode_get_order_response : HttpResponse → Option GetOrderRes
  unfolding json_body decode_get_error_response
  decode_get_order_response resp =
      if resp.status == 200
      then (json_body resp >>= decode x.json >>= λ dto.
          if is_valid_dto dto then some (get_order_ok dto) else none)
      else decode_get_error_response resp

  -- The cases of decodePayOrderResponse behind that of status 200.
  unfoldable pub decode_pay_error_response : HttpResponse → Option PayOrderRes
  unfolding refused_body
  decode_pay_error_response resp =
      if resp.status == 400
      then refused_body decode_pay_order_bad_request resp
      else if resp.status == 404
      then refused_body decode_pay_order_not_found resp
      else if resp.status == 409
      then refused_body decode_pay_order_conflict resp
      else if resp.status == 500
      then refused_body decode_pay_order_internal resp
      else none

  -- decodePayOrderResponse
  unfoldable pub decode_pay_order_response : HttpResponse → Option PayOrderRes
  unfolding json_body decode_pay_error_response
  decode_pay_order_response resp =
      if resp.status == 200
      then (json_body resp >>= decode_paid x.json >>= λ s. some (pay_order_paid s))
      else decode_pay_error_response resp
