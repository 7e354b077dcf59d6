-- ===== src/Http/Client/Calls/Handled.antt =====
-- What the server's handlers (oas_handlers_gen.go) make of the requests that the client
-- (oas_client_gen.go, oas_request_encoders_gen.go) sends.
use ms_ex.Prelude.{ℕ, suc, arith, leb_ℤ, ◌&&◌, pos, ◌≡◌, refl, true, false, some, [], ◌∷◌, length}
use ms_ex.External.{Uuid, Time, Libs}
use ms_ex.Order.Service.{World, Service}
use ms_ex.Order.Api as Api
use ms_ex.Order.Api.{answers}
use ms_ex.Http.Schemas.{
  nil_uuid, CreateOrderRequest, PayOrderRequest, GetOrderRes, CreateOrderRes, PayOrderRes,
  CancelOrderRes,
}
use ms_ex.Http.Router.Prefix.{Bytes}
use ms_ex.Http.Router.{Url}
use ms_ex.Http.Json.{JsonObject, JsonLaws}
use ms_ex.Http.Json.RoundTrip.{IsNormal}
use ms_ex.Http.Json.Requests.{encode_create, encode_pay, is_valid_pay}
use ms_ex.Http.Json.Requests.RoundTrip.{decode_create-encode_create, decode_pay-encode_pay}
use ms_ex.Http.Encoders.{
  encode_get_order_response, encode_create_order_response, encode_pay_order_response,
  encode_cancel_order_response,
}
use ms_ex.Http.Server.{
  HttpLib, HttpRequest, nonempty, responds, read_body, decode_create_order_request,
  decode_pay_order_request, handle_get_order_request, handle_create_order_request,
  handle_pay_order_request, handle_cancel_order_request,
}
use ms_ex.Http.Server.Dispatch.{HttpCall}
use ms_ex.Http.Client.{ClientLib, encode_create_order_request, encode_pay_order_request}
use ms_ex.Http.Client.Calls.{ClientLaws, IsReadId, IsReadObject, decode_order_uuid_read}

some_length : (n : ℕ) → (leb_ℤ (pos (suc n)) (pos 0) && leb_ℤ (pos 0) (pos (suc n))) ≡ false
some_length n = ground arith

read_body_posted :
    (x : HttpLib) (r : HttpRequest) (bs : Bytes) (fields : JsonObject)
    → r.media_type ≡ some "application/json"
    → r.content_length ≡ pos (length bs)
    → r.body ≡ some bs
    → nonempty bs ≡ some bs
    → x.parse_object bs ≡ some fields
    → read_body x r ≡ some fields
unfolding read_body
read_body_posted x r [] fields media_type long body some_byte read = cc some_byte
read_body_posted x r (b ∷ bs) fields media_type long body some_byte read =
    rw (media_type, long, body, some_length (length bs), read) refl

module _ (x : HttpLib) (json_laws : JsonLaws x.json) (c : ClientLib) (prefix : Bytes)
    (server_url : Url) (laws : ClientLaws x c prefix server_url) where
  read_body_set :
      (r : HttpCall) (fields : JsonObject)
      → IsReadObject x c fields
      → read_body x (c.set_body r (c.encode_object fields) "application/json").request ≡ some fields
  read_body_set r fields h =
      let bs = c.encode_object fields in
      read_body_posted x _ bs fields (laws.body_type r bs) (laws.body_length r bs)
        (laws.body_read r bs) h.some_byte h.read

  pub decode_pay_order_request_encoded :
      (r : HttpCall) (req : PayOrderRequest)
      → IsReadObject x c (encode_pay req)
      → is_valid_pay req ≡ true
      → decode_pay_order_request x (encode_pay_order_request x c req r).request ≡ some req
  unfolding encode_pay_order_request decode_pay_order_request
  decode_pay_order_request_encoded r req h valid =
      rw
        (
          decode_pay_order_request,
          read_body_set r (encode_pay req) h,
          decode_pay-encode_pay req,
          valid,
        )
        refl

  pub decode_create_order_request_encoded :
      (r : HttpCall) (req : CreateOrderRequest)
      → IsReadObject x c (encode_create x.json req)
      → IsNormal nil_uuid req.shield_uuid
      → IsNormal nil_uuid req.weapon_uuid
      → decode_create_order_request x (encode_create_order_request x c req r).request ≡ some req
  unfolding encode_create_order_request decode_create_order_request
  decode_create_order_request_encoded r req h shield weapon =
      rw
        (
          decode_create_order_request,
          read_body_set r (encode_create x.json req) h,
          decode_create-encode_create x.json json_laws req shield weapon,
        )
        refl

module _ {R : Type 0} (x : HttpLib) (c : ClientLib) (L : Libs) (svc : Service R) (id : Uuid)
    (encoded : Bytes) (read : IsReadId x c id encoded) (w w' : World R) where
  pub get_handled :
      (res : GetOrderRes)
      → Api.get_order L svc id w ≡ (answers res, w')
      → handle_get_order_request x L svc encoded false w
        ≡ (responds (encode_get_order_response x.json res), w')
  unfolding handle_get_order_request
  get_handled res replies =
      rw (handle_get_order_request, decode_order_uuid_read x c id encoded read, replies) refl

  pub cancel_handled :
      (res : CancelOrderRes)
      → Api.cancel_order L svc id w ≡ (answers res, w')
      → handle_cancel_order_request x L svc encoded false w
        ≡ (responds (encode_cancel_order_response res), w')
  unfolding handle_cancel_order_request
  cancel_handled res replies =
      rw (handle_cancel_order_request, decode_order_uuid_read x c id encoded read, replies) refl

  pub pay_handled :
      (r : HttpRequest) (req : PayOrderRequest) (res : PayOrderRes)
      → decode_pay_order_request x r ≡ some req
      → Api.pay_order L svc req id w ≡ (answers res, w')
      → handle_pay_order_request x L svc encoded false r w
        ≡ (responds (encode_pay_order_response x.json res), w')
  unfolding handle_pay_order_request
  pay_handled r req res decoded replies =
      rw (handle_pay_order_request, decode_order_uuid_read x c id encoded read, decoded, replies)
        refl

pub create_handled :
    {R : Type 0} (x : HttpLib) (L : Libs) (svc : Service R) (id : Uuid) (now : Time)
    (r : HttpRequest) (req : CreateOrderRequest) (res : CreateOrderRes) (w w' : World R)
    → decode_create_order_request x r ≡ some req
    → Api.create_order L svc id now req w ≡ (answers res, w')
    → handle_create_order_request x L svc id now r w
      ≡ (responds (encode_create_order_response x.json res), w')
unfolding handle_create_order_request
create_handled x L svc id now r req res w w' decoded replies =
    rw (handle_create_order_request, decoded, replies) refl
