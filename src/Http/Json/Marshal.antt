-- ===== src/Http/Json/Marshal.antt =====
-- MarshalJSON and UnmarshalJSON of oas_json_gen.go, for the types that are objects.
pub mod RoundTrip
use ms_ex.Prelude.{Option, some, List, [], ◌∷◌}
use ms_ex.Http.Schemas.{
  ErrorBody, CreateOrderRequest, CreateOrderResponse, PayOrderRequest, PayOrderResponse, OrderDto,
  GetOrderRes, CreateOrderRes, PayOrderRes, CancelOrderRes, cancel_order_done,
  cancel_order_bad_request, cancel_order_conflict, cancel_order_internal, cancel_order_not_found,
  create_order_bad_request, create_order_conflict, create_order_internal, create_order_not_found,
  get_order_bad_request, get_order_internal, get_order_not_found, pay_order_bad_request,
  pay_order_conflict, pay_order_internal, pay_order_not_found,
}
use ms_ex.Http.Router.Prefix.{Bytes}
use ms_ex.Http.Json.{JsonObject, JsonLib, ◌>>=◌}
use ms_ex.Http.Json.Aliases.{
  decode_cancel_order_bad_request, decode_cancel_order_conflict, decode_cancel_order_internal,
  decode_cancel_order_not_found, decode_create_order_bad_request, decode_create_order_conflict,
  decode_create_order_internal, decode_create_order_not_found, decode_get_order_bad_request,
  decode_get_order_internal, decode_get_order_not_found, decode_pay_order_bad_request,
  decode_pay_order_conflict, decode_pay_order_internal, decode_pay_order_not_found,
}
use ms_ex.Http.Json.Bodies.{
  encode_error, decode_error, encode_created, decode_created, encode_paid, decode_paid,
}
use ms_ex.Http.Json.Dto.{encode_fields, decode}
use ms_ex.Http.Json.Requests.{encode_create, decode_create, encode_pay, decode_pay}

-- jx.Encoder with its Bytes, and jx.DecodeBytes, on one object.
pub record Jx : Type 0 where
  pub write : JsonObject → Bytes
  pub read : Bytes → Option JsonObject

-- MarshalJSON and UnmarshalJSON of a type, over its Encode and Decode.
pub record Methods (A B : Type 0) : Type 0 where
  pub marshal_json : A → Bytes
  pub unmarshal_json : Bytes → Option B

abbrev pub methods : {A B : Type 0} → Jx → (A → JsonObject) → (JsonObject → Option B) → Methods A B
methods jx encode dec = record {
  marshal_json = λ s. jx.write (encode s);
  unmarshal_json = λ bytes. jx.read bytes >>= dec;
}

-- A type that is an Error by another name.
pub record Alias (R : Type 0) : Type 0 where
  pub convert : ErrorBody → R
  pub json : Methods ErrorBody R

module _ (jx : Jx) (J : JsonLib) where
  abbrev pub error_json : Methods ErrorBody ErrorBody
  error_json = methods jx encode_error (decode_error J)

  abbrev pub create_order_request_json : Methods CreateOrderRequest CreateOrderRequest
  create_order_request_json = methods jx (encode_create J) (decode_create J)

  abbrev pub create_order_response_json : Methods CreateOrderResponse CreateOrderResponse
  create_order_response_json = methods jx (encode_created J) (decode_created J)

  abbrev pub pay_order_request_json : Methods PayOrderRequest PayOrderRequest
  pay_order_request_json = methods jx encode_pay decode_pay

  abbrev pub pay_order_response_json : Methods PayOrderResponse PayOrderResponse
  pay_order_response_json = methods jx (encode_paid J) (decode_paid J)

  abbrev pub order_dto_json : Methods OrderDto OrderDto
  order_dto_json = methods jx (encode_fields J) (decode J)

  -- CancelOrderResponse has no fields, and Decode skips any that it finds.
  abbrev pub cancel_order_response_json : Methods CancelOrderRes CancelOrderRes
  cancel_order_response_json = methods jx (λ s. []) (λ fields. some cancel_order_done)

  abbrev pub cancel_order_bad_request_json : Alias CancelOrderRes
  cancel_order_bad_request_json = record {
    convert = cancel_order_bad_request;
    json = methods jx encode_error (decode_cancel_order_bad_request J);
  }

  abbrev pub cancel_order_conflict_json : Alias CancelOrderRes
  cancel_order_conflict_json = record {
    convert = cancel_order_conflict;
    json = methods jx encode_error (decode_cancel_order_conflict J);
  }

  abbrev pub cancel_order_internal_json : Alias CancelOrderRes
  cancel_order_internal_json = record {
    convert = cancel_order_internal;
    json = methods jx encode_error (decode_cancel_order_internal J);
  }

  abbrev pub cancel_order_not_found_json : Alias CancelOrderRes
  cancel_order_not_found_json = record {
    convert = cancel_order_not_found;
    json = methods jx encode_error (decode_cancel_order_not_found J);
  }

  abbrev pub create_order_bad_request_json : Alias CreateOrderRes
  create_order_bad_request_json = record {
    convert = create_order_bad_request;
    json = methods jx encode_error (decode_create_order_bad_request J);
  }

  abbrev pub create_order_conflict_json : Alias CreateOrderRes
  create_order_conflict_json = record {
    convert = create_order_conflict;
    json = methods jx encode_error (decode_create_order_conflict J);
  }

  abbrev pub create_order_internal_json : Alias CreateOrderRes
  create_order_internal_json = record {
    convert = create_order_internal;
    json = methods jx encode_error (decode_create_order_internal J);
  }

  abbrev pub create_order_not_found_json : Alias CreateOrderRes
  create_order_not_found_json = record {
    convert = create_order_not_found;
    json = methods jx encode_error (decode_create_order_not_found J);
  }

  abbrev pub get_order_bad_request_json : Alias GetOrderRes
  get_order_bad_request_json = record {
    convert = get_order_bad_request;
    json = methods jx encode_error (decode_get_order_bad_request J);
  }

  abbrev pub get_order_internal_json : Alias GetOrderRes
  get_order_internal_json = record {
    convert = get_order_internal;
    json = methods jx encode_error (decode_get_order_internal J);
  }

  abbrev pub get_order_not_found_json : Alias GetOrderRes
  get_order_not_found_json = record {
    convert = get_order_not_found;
    json = methods jx encode_error (decode_get_order_not_found J);
  }

  abbrev pub pay_order_bad_request_json : Alias PayOrderRes
  pay_order_bad_request_json = record {
    convert = pay_order_bad_request;
    json = methods jx encode_error (decode_pay_order_bad_request J);
  }

  abbrev pub pay_order_conflict_json : Alias PayOrderRes
  pay_order_conflict_json = record {
    convert = pay_order_conflict;
    json = methods jx encode_error (decode_pay_order_conflict J);
  }

  abbrev pub pay_order_internal_json : Alias PayOrderRes
  pay_order_internal_json = record {
    convert = pay_order_internal;
    json = methods jx encode_error (decode_pay_order_internal J);
  }

  abbrev pub pay_order_not_found_json : Alias PayOrderRes
  pay_order_not_found_json = record {
    convert = pay_order_not_found;
    json = methods jx encode_error (decode_pay_order_not_found J);
  }
