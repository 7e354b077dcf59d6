-- ===== src/Http/Client/Calls/Replies.antt =====
-- What a call of the client (oas_client_gen.go) comes to, where it reaches the server.
use ms_ex.Prelude.{String, ◌≡◌, refl, ap, ◌∙◌, true, false, Option, some, [], ◌∷◌, ◌++◌, inl, inr}
use mathlib.Core.List.{append-nil}
use ms_ex.External.{Uuid, Time, Libs}
use ms_ex.Order.Service.{World, Service}
use ms_ex.Order.Api as Api
use ms_ex.Order.Api.{answers}
use ms_ex.Http.Schemas.{
  nil_uuid, CreateOrderRequest, PayOrderRequest, GetOrderRes, CreateOrderRes, PayOrderRes,
  CancelOrderRes,
}
use ms_ex.Http.Router.Prefix.{Bytes, bytes}
use ms_ex.Http.Router.Paths.{
  serve_elem_creates, serve_elem_gets, serve_elem_pays, serve_elem_cancels,
}
use ms_ex.Http.Router.{
  Url, Served, serve_elem, serve_http, handle_create_order, handle_get_order, handle_pay_order,
  handle_cancel_order, orders_path,
}
use ms_ex.Http.Json.{JsonLaws}
use ms_ex.Http.Json.RoundTrip.{IsNormal}
use ms_ex.Http.Json.Requests.{encode_create, encode_pay, is_valid_pay}
use ms_ex.Http.Encoders.{
  Response, encode_get_order_response, encode_create_order_response, encode_pay_order_response,
  encode_cancel_order_response,
}
use ms_ex.Http.Server.{HttpLib, Outcome, responds}
use ms_ex.Http.Server.Dispatch.{HttpCall, Answer, handled, dispatch, serve}
use ms_ex.Http.Responses.{
  HttpResponse, decode_get_order_response, decode_create_order_response, decode_pay_order_response,
  decode_cancel_order_response,
}
use ms_ex.Http.Responses.RoundTrip.{
  as_read, IsSendableGet, IsSendableCreate, decode_get_order_response-encode,
  decode_create_order_response-encode, decode_pay_order_response-encode,
  decode_cancel_order_response-encode,
}
use ms_ex.Http.Client.{
  ClientLib, received, encode_create_order_request, encode_pay_order_request, exchange,
  send_create_order, send_get_order, send_pay_order, send_cancel_order,
}
use ms_ex.Http.Client.Calls.{ClientLaws, IsReadId, IsReadObject, Delivers, over_server}
use ms_ex.Http.Client.Calls.Sendable.{cancel_order-IsSendable, pay_order-IsSendable}
use ms_ex.Http.Client.Calls.Sent.{IsPlain-bytes, requested, posts}
use ms_ex.Http.Client.Calls.Handled.{
  decode_create_order_request_encoded, decode_pay_order_request_encoded, create_handled,
  get_handled, pay_handled, cancel_handled,
}

-- The answer of ServeHTTP, where a handler is called.
abbrev handing : {R : Type 0} → Outcome × World R → Answer × World R
handing (o, w) = (handled o, w)

hands :
    {R : Type 0} {p : Outcome × World R} {o : Outcome} {w' : World R}
    → p ≡ (o, w')
    → handing p ≡ (handled o, w')
hands h = ap handing h

module _ {R : Type 0} (x : HttpLib) (json_laws : JsonLaws x.json) (c : ClientLib) (prefix : Bytes)
    (server_url : Url) (laws : ClientLaws x c prefix server_url) (to_upper : String → String)
    (L : Libs) (svc : Service R) (new_id : Uuid) (now : Time)
    (deliver : Answer → Option HttpResponse) where
  -- What the client gets, where ServeHTTP serves its request and a response is written.
  exchange_served :
      {A : Type 0} (decode : HttpResponse → Option A) (r : HttpCall) (served : Served) (a : A)
      (written : Response) (w w' : World R)
      → serve_http x.escapes prefix r.method r.url ≡ served
      → dispatch x to_upper L svc new_id now r served w ≡ (handled (responds written), w')
      → (d : Delivers x deliver written) → decode d.resp ≡ some a
      → exchange x c
          (over_server x to_upper L svc prefix new_id now deliver)
          server_url
          decode
          (received r)
          w
        ≡ (received a, w')
  unfolding exchange over_server serve
  exchange_served decode r served a written w w' routed handles d decodes =
      rw (routed, handles, d.received, decodes) refl

  -- Where the handler of CancelOrder answers for an id, with success or with 404 or 409, the
  -- client's call of it, over a transport that reaches the server, returns that answer and leaves
  -- the world that the handler leaves; the id and the body are read as they were written.
  pub send_cancel_order_served :
      (id : Uuid) (encoded : Bytes) (res : CancelOrderRes) (w w' : World R)
      → IsReadId x c id encoded
      → Api.cancel_order L svc id w ≡ (answers res, w')
      → Delivers x deliver (encode_cancel_order_response res)
      → send_cancel_order x c
          (over_server x to_upper L svc prefix new_id now deliver)
          server_url
          id
          w
        ≡ (received res, w')
  unfolding send_cancel_order dispatch
  send_cancel_order_served id encoded res w w' h replies d =
      let (r, made, routed) =
        requested x c prefix server_url laws "POST"
          (bytes "/api/v1/orders/" ∷ encoded ∷ bytes "/cancel" ∷ [])
          (handle_cancel_order encoded false) (inr refl)
          (IsPlain-bytes "/api/v1/orders/" refl, (h.plain, (IsPlain-bytes "/cancel" refl, tt)))
          (serve_elem_cancels "POST" false encoded h.no_slash) in
      rw (h.written, made)
        (exchange_served (decode_cancel_order_response x) r (handle_cancel_order encoded false) res
          (encode_cancel_order_response res) w w' routed
          (hands (cancel_handled x c L svc id encoded h w w' res replies)) d
          (decode_cancel_order_response-encode x json_laws res d.resp
            (cancel_order-IsSendable L svc id res w w' replies) d.same))

  -- Where the handler of PayOrder answers a valid request for an id, with the transaction or with
  -- 404 or 409, the client's call of it, over a transport that reaches the server, returns that
  -- answer and leaves the world that the handler leaves; the id and the bodies are read as they
  -- were written.
  pub send_pay_order_served :
      (req : PayOrderRequest) (id : Uuid) (encoded : Bytes) (res : PayOrderRes) (w w' : World R)
      → IsReadId x c id encoded
      → IsReadObject x c (encode_pay req)
      → is_valid_pay req ≡ true
      → Api.pay_order L svc req id w ≡ (answers res, w')
      → Delivers x deliver (encode_pay_order_response x.json res)
      → send_pay_order x c
          (over_server x to_upper L svc prefix new_id now deliver)
          server_url
          req
          id
          w
        ≡ (received res, w')
  unfolding send_pay_order dispatch
  send_pay_order_served req id encoded res w w' h body valid replies d =
      let (r, made, routed) =
        posts x c prefix server_url laws (bytes "/api/v1/orders/" ∷ encoded ∷ bytes "/pay" ∷ [])
          (handle_pay_order encoded false) (encode_pay req)
          (IsPlain-bytes "/api/v1/orders/" refl, (h.plain, (IsPlain-bytes "/pay" refl, tt)))
          (serve_elem_pays "POST" false encoded h.no_slash) in
      rw (h.written, made)
        (exchange_served (decode_pay_order_response x) (encode_pay_order_request x c req r)
          (handle_pay_order encoded false) res (encode_pay_order_response x.json res) w w' routed
          (hands (
            pay_handled x c L svc id encoded h w w' _ req res
              (decode_pay_order_request_encoded x json_laws c prefix server_url laws r req body
                valid)
              replies))
          d
          (decode_pay_order_response-encode x json_laws res d.resp
            (pay_order-IsSendable L svc req id res w w' replies) d.same))

  -- Where the handler of GetOrder answers for an id, the client's call of it, over a transport that
  -- reaches the server, returns that answer, the creation time of an order in it cut to whole
  -- seconds, and leaves the world that the handler leaves; the order in the answer passes the
  -- client's validation, its price is in the range of an int64, and the id and the body are read as
  -- they were written.
  pub send_get_order_served :
      (id : Uuid) (encoded : Bytes) (res : GetOrderRes) (w w' : World R)
      → IsReadId x c id encoded
      → Api.get_order L svc id w ≡ (answers res, w')
      → IsSendableGet res
      → Delivers x deliver (encode_get_order_response x.json res)
      → send_get_order x c (over_server x to_upper L svc prefix new_id now deliver) server_url id w
        ≡ (received (as_read res), w')
  unfolding send_get_order dispatch
  send_get_order_served id encoded res w w' h replies sendable d =
      let (r, made, routed) =
        requested x c prefix server_url laws "GET" (bytes "/api/v1/orders/" ∷ encoded ∷ [])
          (handle_get_order encoded false) (inl refl)
          (IsPlain-bytes "/api/v1/orders/" refl, (h.plain, tt))
          (ap (λ a. serve_elem "GET" false (orders_path ++ (b'/' ∷ a))) (append-nil encoded)
            ∙ serve_elem_gets "GET" false encoded h.no_slash) in
      rw (h.written, made)
        (exchange_served (decode_get_order_response x) r (handle_get_order encoded false)
          (as_read res) (encode_get_order_response x.json res) w w' routed
          (hands (get_handled x c L svc id encoded h w w' res replies)) d
          (decode_get_order_response-encode x json_laws res d.resp sendable d.same))

  -- Where the handler of CreateOrder answers a request whose optional ids are unset, null or set,
  -- the client's call of it, over a transport that reaches the server, returns that answer and
  -- leaves the world that the handler leaves; the answer's numbers are in the range of an int64,
  -- and the bodies are read as they were written.
  pub send_create_order_served :
      (req : CreateOrderRequest) (res : CreateOrderRes) (w w' : World R)
      → IsNormal nil_uuid req.shield_uuid
      → IsNormal nil_uuid req.weapon_uuid
      → IsReadObject x c (encode_create x.json req)
      → Api.create_order L svc new_id now req w ≡ (answers res, w')
      → IsSendableCreate res
      → Delivers x deliver (encode_create_order_response x.json res)
      → send_create_order x c
          (over_server x to_upper L svc prefix new_id now deliver)
          server_url
          req
          w
        ≡ (received res, w')
  unfolding send_create_order dispatch
  send_create_order_served req res w w' shield weapon body replies sendable d =
      let (r, made, routed) =
        posts x c prefix server_url laws (bytes "/api/v1/orders" ∷ []) (handle_create_order false)
          (encode_create x.json req) (IsPlain-bytes "/api/v1/orders" refl, tt)
          (serve_elem_creates "POST" false) in
      rw made (
        exchange_served (decode_create_order_response x) (encode_create_order_request x c req r)
          (handle_create_order false) res (encode_create_order_response x.json res) w w' routed
          (hands (
            create_handled x L svc new_id now _ req res w w'
              (decode_create_order_request_encoded x json_laws c prefix server_url laws r req body
                shield weapon)
              replies))
          d (decode_create_order_response-encode x json_laws res d.resp sendable d.same))
