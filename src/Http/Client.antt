-- ===== src/Http/Client.antt =====
-- shared/pkg/openapi/order/v1: oas_client_gen.go and oas_request_encoders_gen.go.
pub mod Calls
pub mod Stages
pub mod Telemetry
use ms_ex.Prelude.{String, Option, none, some, List, [], ◌∷◌}
use ms_ex.External.{Uuid}
use ms_ex.Http.Schemas.{
  CreateOrderRequest, PayOrderRequest, GetOrderRes, CreateOrderRes, PayOrderRes, CancelOrderRes,
}
use ms_ex.Http.Router.Prefix.{Bytes, bytes}
use ms_ex.Http.Router.{Url}
use ms_ex.Http.Json.{JsonObject}
use ms_ex.Http.Json.Requests.{encode_create, encode_pay}
use ms_ex.Http.Server.{HttpLib}
use ms_ex.Http.Server.Dispatch.{HttpCall}
use ms_ex.Http.Responses.{
  HttpResponse, decode_get_order_response, decode_create_order_response, decode_pay_order_response,
  decode_cancel_order_response,
}

-- The calls of ogen and jx: uri.PathEncoder on conv.UUIDToString of an id, uri.AddPathParts,
-- ht.NewRequest, ht.SetBody with its bytes and content type, and jx.Encoder on an object.
pub record ClientLib : Type 0 where
  pub encode_path : Uuid → Option Bytes
  pub add_path_parts : Url → List Bytes → Url
  pub new_request : String → Url → Option HttpCall
  pub set_body : HttpCall → Bytes → String → HttpCall
  pub encode_object : JsonObject → Bytes

-- The values of `stage`, in order.
pub data ClientStage : Type 0 where
  build_url encode_request send_request decode_response : ClientStage

-- How a call ends: with a result, or with an error at a stage.
pub data Sent (A : Type 0) : Type 0 where
  received : A → Sent A
  failed_at : ClientStage → Sent A

-- What is computed at a stage; `none` is an error.
abbrev pub at_stage : {A : Type 0} → ClientStage → Option A → Sent A
at_stage stage none = failed_at stage
at_stage stage (some v) = received v

infixl 5 ◌>>=◌
abbrev pub ◌>>=◌ : {A B : Type 0} → Sent A → (A → Sent B) → Sent B
received v >>= f = f v
failed_at stage >>= f = failed_at stage

module _ (x : HttpLib) (c : ClientLib) where
  -- encodeCreateOrderRequest
  unfoldable pub encode_create_order_request : CreateOrderRequest → HttpCall → HttpCall
  encode_create_order_request req r =
      c.set_body r (c.encode_object (encode_create x.json req)) "application/json"

  -- encodePayOrderRequest
  unfoldable pub encode_pay_order_request : PayOrderRequest → HttpCall → HttpCall
  encode_pay_order_request req r =
      c.set_body r (c.encode_object (encode_pay req)) "application/json"

module _ {S : Type 0} (x : HttpLib) (c : ClientLib)
    (do_request : HttpCall → S → Option HttpResponse × S) (server_url : Url) where
  abbrev read_response :
      {A : Type 0} → (HttpResponse → Option A) → Option HttpResponse × S → Sent A × S
  read_response decode (resp, w) =
      (at_stage send_request resp >>= λ r. at_stage decode_response (decode r), w)

  -- The stages SendRequest and DecodeResponse, with the request that the stages before them end in.
  unfoldable pub exchange :
      {A : Type 0} → (HttpResponse → Option A) → Sent HttpCall → S → Sent A × S
  exchange decode (failed_at stage) w = (failed_at stage, w)
  exchange decode (received r) w = read_response decode (do_request r w)

  -- sendCancelOrder
  unfoldable pub send_cancel_order : Uuid → S → Sent CancelOrderRes × S
  unfolding exchange
  send_cancel_order id = exchange (decode_cancel_order_response x) (
      at_stage build_url (c.encode_path id) >>= λ encoded. at_stage encode_request (
        c.new_request "POST"
          (c.add_path_parts server_url (bytes "/api/v1/orders/" ∷ encoded ∷ bytes "/cancel" ∷ []))))

  -- sendCreateOrder
  unfoldable pub send_create_order : CreateOrderRequest → S → Sent CreateOrderRes × S
  unfolding exchange encode_create_order_request
  send_create_order req = exchange (decode_create_order_response x) (
      at_stage encode_request
        (c.new_request "POST" (c.add_path_parts server_url (bytes "/api/v1/orders" ∷ [])))
      >>= λ r. received (encode_create_order_request x c req r))

  -- sendGetOrder
  unfoldable pub send_get_order : Uuid → S → Sent GetOrderRes × S
  unfolding exchange
  send_get_order id = exchange (decode_get_order_response x) (
      at_stage build_url (c.encode_path id) >>= λ encoded.
      at_stage encode_request (
        c.new_request "GET" (c.add_path_parts server_url (bytes "/api/v1/orders/" ∷ encoded ∷ []))))

  -- sendPayOrder
  unfoldable pub send_pay_order : PayOrderRequest → Uuid → S → Sent PayOrderRes × S
  unfolding exchange encode_pay_order_request
  send_pay_order req id = exchange (decode_pay_order_response x) (
      at_stage build_url (c.encode_path id) >>= λ encoded.
      at_stage encode_request (
        c.new_request "POST"
          (c.add_path_parts server_url (bytes "/api/v1/orders/" ∷ encoded ∷ bytes "/pay" ∷ [])))
      >>= λ r. received (encode_pay_order_request x c req r))
