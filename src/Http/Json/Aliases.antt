-- ===== src/Http/Json/Aliases.antt =====
-- The types of oas_json_gen.go that are an Error by another name, one for each response that tells of
-- a failure: each Decode reads an Error and converts it.
use ms_ex.Prelude.{Option, some}
use ms_ex.Http.Schemas.{
  ErrorBody, GetOrderRes, CreateOrderRes, PayOrderRes, CancelOrderRes, cancel_order_bad_request,
  cancel_order_conflict, cancel_order_internal, cancel_order_not_found, create_order_bad_request,
  create_order_conflict, create_order_internal, create_order_not_found, get_order_bad_request,
  get_order_internal, get_order_not_found, pay_order_bad_request, pay_order_conflict,
  pay_order_internal, pay_order_not_found,
}
use ms_ex.Http.Json.{JsonObject, JsonLib, ◌>>=◌}
use ms_ex.Http.Json.Bodies.{decode_error}

-- The part that all of them share, with the conversion.
unfoldable pub decode_alias : {A : Type 0} → JsonLib → (ErrorBody → A) → JsonObject → Option A
decode_alias J convert fields = decode_error J fields >>= λ unwrapped. some (convert unwrapped)

module _ (J : JsonLib) where
  abbrev pub decode_cancel_order_bad_request : JsonObject → Option CancelOrderRes
  decode_cancel_order_bad_request = decode_alias J cancel_order_bad_request

  abbrev pub decode_cancel_order_conflict : JsonObject → Option CancelOrderRes
  decode_cancel_order_conflict = decode_alias J cancel_order_conflict

  abbrev pub decode_cancel_order_internal : JsonObject → Option CancelOrderRes
  decode_cancel_order_internal = decode_alias J cancel_order_internal

  abbrev pub decode_cancel_order_not_found : JsonObject → Option CancelOrderRes
  decode_cancel_order_not_found = decode_alias J cancel_order_not_found

  abbrev pub decode_create_order_bad_request : JsonObject → Option CreateOrderRes
  decode_create_order_bad_request = decode_alias J create_order_bad_request

  abbrev pub decode_create_order_conflict : JsonObject → Option CreateOrderRes
  decode_create_order_conflict = decode_alias J create_order_conflict

  abbrev pub decode_create_order_internal : JsonObject → Option CreateOrderRes
  decode_create_order_internal = decode_alias J create_order_internal

  abbrev pub decode_create_order_not_found : JsonObject → Option CreateOrderRes
  decode_create_order_not_found = decode_alias J create_order_not_found

  abbrev pub decode_get_order_bad_request : JsonObject → Option GetOrderRes
  decode_get_order_bad_request = decode_alias J get_order_bad_request

  abbrev pub decode_get_order_internal : JsonObject → Option GetOrderRes
  decode_get_order_internal = decode_alias J get_order_internal

  abbrev pub decode_get_order_not_found : JsonObject → Option GetOrderRes
  decode_get_order_not_found = decode_alias J get_order_not_found

  abbrev pub decode_pay_order_bad_request : JsonObject → Option PayOrderRes
  decode_pay_order_bad_request = decode_alias J pay_order_bad_request

  abbrev pub decode_pay_order_conflict : JsonObject → Option PayOrderRes
  decode_pay_order_conflict = decode_alias J pay_order_conflict

  abbrev pub decode_pay_order_internal : JsonObject → Option PayOrderRes
  decode_pay_order_internal = decode_alias J pay_order_internal

  abbrev pub decode_pay_order_not_found : JsonObject → Option PayOrderRes
  decode_pay_order_not_found = decode_alias J pay_order_not_found
