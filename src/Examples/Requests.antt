-- ===== src/Examples/Requests.antt =====
-- The theorems on HTTP requests at concrete inputs.
use ms_ex.Prelude.{pos, ◌≡◌, ◌⊎◌, refl, false, inl, inr, some, [], ◌∷◌, lookup}
use ms_ex.External.{Uuid}
use ms_ex.Order.Service as OrderService
use ms_ex.Order.Repository.Memory.{Orders}
use ms_ex.Order.Api as Api
use ms_ex.Payment.Acceptance.{IsKnownMethod}
use ms_ex.System.{order_service}
use ms_ex.System.Paying.{in_memory, world_paid}
use ms_ex.Http.Schemas.{PayOrderRequest}
use ms_ex.Http.Router.{Escapes}
use ms_ex.Http.Router.Prefix.{bytes}
use ms_ex.Http.Json.{str, JsonObject}
use ms_ex.Http.Encoders.{encode_pay_order_response}
use ms_ex.Http.Server.{
  HttpLib, HttpRequest, responds, bad_params, bad_request, respond, decode_order_uuid, read_body,
  handle_pay_order_request,
}
use ms_ex.Http.Server.Payments.{
  handle_pay_order_request-IsKnownMethod, handle_pay_order_request_paid,
}
use ms_ex.Examples.Data.{
  libs, lib_laws, catalog, same_order, drawn_id, answering, json, pending_order, one_pending,
}

abbrev escapes : Escapes
escapes = record { normalize_escaped_path = λ path. some path; path_unescape = λ path. some path }

abbrev by_sbp : JsonObject
by_sbp = ("payment_method", str "SBP") ∷ []

abbrev http : HttpLib
http = record {
  escapes = escapes;
  to_uuid = λ text. some 7;
  parse_object = λ text. some by_sbp;
  json = json;
}

abbrev posted : HttpRequest
posted = record {
  media_type = some "application/json";
  content_length = pos 24;
  body = some (bytes "{}");
}

abbrev system : OrderService.Service Orders
system = order_service libs (in_memory catalog same_order drawn_id)

handle_pay_order_request-IsKnownMethod_example :
    ((handle_pay_order_request http libs answering (bytes "7") false posted one_pending
        ≡ (bad_params, one_pending))
      ⊎ (handle_pay_order_request http libs answering (bytes "7") false posted one_pending
          ≡ (bad_request, one_pending)))
    ⊎ ((id : Uuid) × (req : PayOrderRequest) × IsKnownMethod req.payment_method
        × (handle_pay_order_request http libs answering (bytes "7") false posted one_pending
            ≡ respond
                (encode_pay_order_response json)
                (Api.pay_order libs answering req id one_pending)))
handle_pay_order_request-IsKnownMethod_example =
    handle_pay_order_request-IsKnownMethod http libs answering (bytes "7") false posted one_pending

id_read : decode_order_uuid http (bytes "7") false ≡ some 7
unfolding decode_order_uuid
id_read = refl

body_read : read_body http posted ≡ some by_sbp
unfolding read_body
body_read = refl

pending_stored : lookup 7 one_pending.stored ≡ some pending_order
unfolding lookup
pending_stored = refl

handle_pay_order_request_paid_example :
    handle_pay_order_request http libs system (bytes "7") false posted one_pending ≡ (
      responds (record { status = 200; body = ("transaction_uuid", json.encode_uuid 9) ∷ [] }),
      world_paid libs lib_laws catalog same_order drawn_id 7
          (record { payment_method = "SBP" })
          pending_order
          one_pending,
    )
handle_pay_order_request_paid_example =
    handle_pay_order_request_paid http libs lib_laws catalog same_order drawn_id (bytes "7") false
      posted 7 "SBP" pending_order one_pending id_read body_read (inr (inl refl)) pending_stored
      refl
