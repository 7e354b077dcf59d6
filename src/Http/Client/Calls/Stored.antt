-- ===== src/Http/Client/Calls/Stored.antt =====
-- The orders that the order service keeps (order/pkg/service/service.go), shown to the client
-- (oas_client_gen.go): they pass its validation (oas_validators_gen.go).
use ms_ex.Prelude.{String, ◌≡◌, refl, true, IsInt64, Option, none, some}
use ms_ex.Errors.{ok}
use ms_ex.External.{Uuid, Time, Libs}
use ms_ex.Order.Data.{Order}
use ms_ex.Order.Service.Life.{IsWellFormed, open_order, paid_order, cancelled_order}
use ms_ex.Order.Service as Service
use ms_ex.Order.Service.{World, Service}
use ms_ex.Order.Api as Api
use ms_ex.Order.Api.{to_opt_nil, to_order_dto}
use ms_ex.Payment.Acceptance.{IsKnownMethod}
use ms_ex.Http.Schemas.{new_opt_nil, reset, get, get_order_ok}
use ms_ex.Http.Router.Prefix.{Bytes}
use ms_ex.Http.Router.{Url}
use ms_ex.Http.Json.{JsonLaws}
use ms_ex.Http.Json.RoundTrip.{IsNormal, in_seconds, unset, valued}
use ms_ex.Http.Json.Bodies.{is_valid_status, is_valid_dto}
use ms_ex.Http.Encoders.{encode_get_order_response}
use ms_ex.Http.Server.{HttpLib}
use ms_ex.Http.Server.Payments.{is_valid_method-of_known}
use ms_ex.Http.Server.Dispatch.{Answer}
use ms_ex.Http.Responses.{HttpResponse}
use ms_ex.Http.Responses.RoundTrip.{IsReadable}
use ms_ex.Http.Client.{ClientLib, received, send_get_order}
use ms_ex.Http.Client.Calls.{ClientLaws, IsReadId, Delivers, over_server}
use ms_ex.Http.Client.Calls.Replies.{send_get_order_served}

to_opt_nil-IsNormal :
    {A : Type 0} (zero_value : A) (v : Option A) → IsNormal zero_value (to_opt_nil zero_value v)
to_opt_nil-IsNormal zero_value none = unset refl
to_opt_nil-IsNormal zero_value (some v) = valued v refl

-- If there is a payment method, it is a known one.
abbrev pub HasKnownMethod : Order → Type 0
HasKnownMethod o = (m : String) → o.payment_method ≡ some m → IsKnownMethod m

to_order_dto_valid :
    (o : Order) → IsWellFormed o → HasKnownMethod o → is_valid_dto (to_order_dto o) ≡ true
unfolding is_valid_dto to_order_dto is_valid_status get reset new_opt_nil
to_order_dto_valid o (open_order status transaction method) known = rw (status, method) refl
to_order_dto_valid o (cancelled_order status transaction method) known = rw (status, method) refl
to_order_dto_valid o (paid_order t m status transaction method) known =
    rw (status, method, is_valid_method-of_known m (known m method)) refl

to_order_dto-IsReadable :
    (o : Order)
    → IsWellFormed o
    → HasKnownMethod o
    → IsInt64 o.total_price
    → IsReadable (to_order_dto o)
unfolding to_order_dto
to_order_dto-IsReadable o good known price = record {
  normal = record {
    shield = to_opt_nil-IsNormal _ o.shield_uuid;
    weapon = to_opt_nil-IsNormal _ o.weapon_uuid;
    transaction = to_opt_nil-IsNormal _ o.transaction_uuid;
    method = to_opt_nil-IsNormal _ o.payment_method;
    price = price;
  };
  valid = to_order_dto_valid o good known;
}

module _ {R : Type 0} (x : HttpLib) (json_laws : JsonLaws x.json) (c : ClientLib) (prefix : Bytes)
    (server_url : Url) (laws : ClientLaws x c prefix server_url) (to_upper : String → String)
    (L : Libs) (svc : Service R) (new_id : Uuid) (now : Time)
    (deliver : Answer → Option HttpResponse) where
  -- Where GetOrder of the service returns an order whose status, transaction and method agree,
  -- whose method, if any, is a known one and whose price is in the range of an int64, the client's
  -- call of GetOrder, over a transport that reaches the server, returns every field of that order,
  -- the creation time cut to whole seconds, and leaves the world that the service leaves; the id
  -- and the body are read as they were written.
  pub send_get_order_stored :
      (id : Uuid) (encoded : Bytes) (o : Order) (w w' : World R)
      → Service.get_order L svc id w ≡ (ok o, w')
      → IsWellFormed o
      → HasKnownMethod o
      → IsInt64 o.total_price
      → IsReadId x c id encoded
      → Delivers x deliver (encode_get_order_response x.json (get_order_ok (to_order_dto o)))
      → send_get_order x c (over_server x to_upper L svc prefix new_id now deliver) server_url id w
        ≡ (received (get_order_ok (in_seconds (to_order_dto o))), w')
  send_get_order_stored id encoded o w w' found good known price read d =
      send_get_order_served x json_laws c prefix server_url laws to_upper L svc new_id now deliver
        id encoded (get_order_ok (to_order_dto o)) w w' read
        (unfold Api.get_order Api.get_order_reply in rw found refl)
        (to_order_dto-IsReadable o good known price) d
