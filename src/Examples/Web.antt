-- ===== src/Examples/Web.antt =====
-- A client, a server and a transport between them, for the examples.
use ms_ex.Prelude.{
  pos, refl, Option, none, some, [], ◌∷◌, ◌++◌, length, arith, str_eq, if◌then◌else◌, ◌==◌,
}
use ms_ex.Order.Repository.Memory.{Orders}
use ms_ex.Order.Service.{World}
use ms_ex.Http.Schemas.{reset, nil_uuid, OrderDto}
use ms_ex.Http.Router.Prefix.{Bytes, bytes}
use ms_ex.Http.Router.{Url, request_elem}
use ms_ex.Http.Json.{str, num, JsonObject}
use ms_ex.Http.Json.Dto.{encode_fields}
use ms_ex.Http.Json.Requests.{encode_create, encode_pay}
use ms_ex.Http.Server.{HttpLib, responds}
use ms_ex.Http.Server.Dispatch.{HttpCall, Answer, handled}
use ms_ex.Http.Responses.{HttpResponse}
use ms_ex.Http.Client.{ClientLib}
use ms_ex.Http.Client.Calls.{join, ClientLaws, IsReadId, over_server}
use ms_ex.Examples.Data.{libs, answering, json, by_card, request_of}

abbrev pub shown : OrderDto
shown = record {
  order_uuid = 7;
  hull_uuid = 1;
  engine_uuid = 2;
  shield_uuid = reset nil_uuid;
  weapon_uuid = reset nil_uuid;
  total_price = pos 800000;
  transaction_uuid = reset nil_uuid;
  payment_method = reset "";
  status = "PENDING_PAYMENT";
  created_at = 5;
}

-- The four bodies that occur below, by a byte each.
abbrev pub body_of : Bytes → Option JsonObject
body_of (b ∷ []) =
    if b == b'p'
    then some (encode_pay by_card)
    else if b == b't'
    then some (("transaction_uuid", str "x...") ∷ [])
    else if b == b'e'
    then some []
    else if b == b'o'
    then some (encode_fields json shown)
    else if b == b'c'
    then some (encode_create json (request_of 1))
    else if b == b'r'
    then some (("order_uuid", str "x.........") ∷ ("total_price", num (pos 500000)) ∷ [])
    else none
body_of _ = none

abbrev pub web : HttpLib
web = record {
  escapes = record {
    normalize_escaped_path = λ path. some path;
    path_unescape = λ path. some path;
  };
  to_uuid = λ text. some 7;
  parse_object = body_of;
  json = json;
}

abbrev pub body_byte : JsonObject → Bytes
body_byte [] = bytes "e"
body_byte ((k, v) ∷ rest) =
    if str_eq k "payment_method"
    then bytes "p"
    else if str_eq k "transaction_uuid"
    then bytes "t"
    else if str_eq k "hull_uuid"
    then bytes "c"
    else if length rest == 1
    then bytes "r"
    else bytes "o"

abbrev pub browser : ClientLib
browser = record {
  encode_path = λ id. some (bytes "7");
  add_path_parts = λ url parts. record { path = url.path ++ join parts; raw_path = [] };
  new_request = λ method url. some (record {
    method = method;
    url = url;
    requested_method = "";
    request = record { media_type = none; content_length = pos 0; body = none };
  });
  set_body = λ r bs content_type. record r {
    request = record {
      media_type = some content_type;
      content_length = pos (length bs);
      body = some bs;
    };
  };
  encode_object = body_byte;
}

abbrev pub home : Url
home = record { path = []; raw_path = [] }

pub web_laws : ClientLaws web browser [] home
unfolding request_elem
web_laws = record {
  requested = λ method url known. (_, refl, refl, refl);
  body_method = λ r bs. refl;
  body_url = λ r bs. refl;
  body_type = λ r bs. refl;
  body_length = λ r bs. refl;
  body_read = λ r bs. refl;
  joined = λ parts plain. refl;
}

pub read_seven : IsReadId web browser 7 (bytes "7")
read_seven = record {
  written = refl;
  plain = (refl, tt);
  no_slash = (λ e. absurd (omega (arith, e)), tt);
  some_byte = refl;
  read = refl;
}

abbrev pub deliver : Answer → Option HttpResponse
deliver (handled (responds r)) = some (record {
  status = r.status;
  media_type = some "application/json";
  body = some (body_byte r.body);
})
deliver _ = none

abbrev pub transport : HttpCall → World Orders → Option HttpResponse × World Orders
transport = over_server web (λ s. s) libs answering [] 9 5 deliver
