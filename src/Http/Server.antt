-- ===== src/Http/Server.antt =====
-- shared/pkg/openapi/order/v1: oas_parameters_gen.go, oas_request_decoders_gen.go and
-- oas_handlers_gen.go, with no middleware configured.
pub mod Dispatch
pub mod Payments
pub mod Telemetry
use ms_ex.Prelude.{
  String, ℤ, pos, leb_ℤ, Bool, ◌&&◌, Option, none, some, [], ◌∷◌, str_eq, if◌then◌else◌,
}
use ms_ex.Errors.{Error}
use ms_ex.External.{Uuid, Time, Libs}
use ms_ex.Order.Service.{World, Service}
use ms_ex.Order.Api as Api
use ms_ex.Order.Api.{Reply, answers, fails, panics}
use ms_ex.Http.Schemas.{CreateOrderRequest, PayOrderRequest}
use ms_ex.Http.Router.{Escapes}
use ms_ex.Http.Router.Prefix.{Bytes}
use ms_ex.Http.Json.{JsonObject, JsonLib, ◌>>=◌}
use ms_ex.Http.Json.Requests.{decode_create, decode_pay, is_valid_pay}
use ms_ex.Http.Encoders.{
  Response, encode_get_order_response, encode_create_order_response, encode_pay_order_response,
  encode_cancel_order_response,
}

-- The calls of ogen and jx: PathDecoder.DecodeValue with conv.ToUUID, and the fields of the one object
-- that a body consists of; `none` where they report an error.
pub record HttpLib : Type 0 where
  pub escapes : Escapes
  pub to_uuid : Bytes → Option Uuid
  pub parse_object : Bytes → Option JsonObject
  pub json : JsonLib

-- What is read of a request: mime.ParseMediaType of its Content-Type, its length, and io.ReadAll of
-- its body.
pub record HttpRequest : Type 0 where
  pub media_type : Option String
  pub content_length : ℤ
  pub body : Option Bytes

-- How a handler ends: a response is written, the error handler is called, or a panic.
pub data Outcome : Type 0 where
  responds : Response → Outcome
  bad_params bad_request : Outcome
  internal : Error → Outcome
  panicked : Outcome

abbrev pub nonempty : Bytes → Option Bytes
nonempty [] = none
nonempty (b ∷ bs) = some (b ∷ bs)

module _ (x : HttpLib) where
  -- decodePayOrderParams
  unfoldable pub decode_order_uuid : Bytes → Bool → Option Uuid
  decode_order_uuid arg escaped =
      (if escaped then x.escapes.path_unescape arg else some arg) >>= nonempty >>= x.to_uuid

  -- decodeGetOrderParams and decodeCancelOrderParams, which read their argument in the same way.
  abbrev pub decode_get_order_params : Bytes → Bool → Option Uuid
  decode_get_order_params = decode_order_uuid

  abbrev pub decode_cancel_order_params : Bytes → Bool → Option Uuid
  decode_cancel_order_params = decode_order_uuid

  -- The part that the two request decoders share.
  unfoldable pub read_body : HttpRequest → Option JsonObject
  read_body r = r.media_type >>= λ ct.
      if str_eq ct "application/json"
      then (if leb_ℤ r.content_length (pos 0) && leb_ℤ (pos 0) r.content_length
          then none
          else (r.body >>= nonempty >>= x.parse_object))
      else none

  unfoldable pub decode_create_order_request : HttpRequest → Option CreateOrderRequest
  unfolding read_body
  decode_create_order_request r = read_body r >>= decode_create x.json

  unfoldable pub decode_pay_order_request : HttpRequest → Option PayOrderRequest
  unfolding read_body
  decode_pay_order_request r =
      read_body r >>= decode_pay >>= λ req. if is_valid_pay req then some req else none

-- The branches behind the call of the handler; writing a response does not fail.
abbrev pub respond : {A S : Type 0} → (A → Response) → Reply A × S → Outcome × S
respond encode (answers response, w) = (responds (encode response), w)
respond encode (fails e, w) = (internal e, w)
respond encode (panics, w) = (panicked, w)

module _ {R : Type 0} (x : HttpLib) (L : Libs) (svc : Service R) where
  unfoldable pub handle_get_order_request : Bytes → Bool → World R → Outcome × World R
  unfolding decode_order_uuid
  handle_get_order_request arg escaped w = elim (decode_get_order_params x arg escaped) [
    | none ↦ (bad_params, w)
    | some id ↦ respond (encode_get_order_response x.json) (Api.get_order L svc id w)
  ]

  unfoldable pub handle_cancel_order_request : Bytes → Bool → World R → Outcome × World R
  unfolding decode_order_uuid
  handle_cancel_order_request arg escaped w = elim (decode_cancel_order_params x arg escaped) [
    | none ↦ (bad_params, w)
    | some id ↦ respond encode_cancel_order_response (Api.cancel_order L svc id w)
  ]

  unfoldable pub handle_create_order_request :
      Uuid → Time → HttpRequest → World R → Outcome × World R
  unfolding decode_create_order_request
  handle_create_order_request id now r w = elim (decode_create_order_request x r) [
    | none ↦ (bad_request, w)
    | some req ↦ respond (encode_create_order_response x.json) (Api.create_order L svc id now req w)
  ]

  unfoldable pub handle_pay_order_request : Bytes → Bool → HttpRequest → World R → Outcome × World R
  unfolding decode_order_uuid decode_pay_order_request
  handle_pay_order_request arg escaped r w = elim (decode_order_uuid x arg escaped) [
    | none ↦ (bad_params, w)
    | some id ↦ elim (decode_pay_order_request x r) [
      | none ↦ (bad_request, w)
      | some req ↦ respond (encode_pay_order_response x.json) (Api.pay_order L svc req id w)
    ]
  ]
