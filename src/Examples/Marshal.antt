-- ===== src/Examples/Marshal.antt =====
-- The theorem on MarshalJSON and UnmarshalJSON at concrete inputs.
use ms_ex.Prelude.{pos, refl, Option, none, some, [], ◌∷◌, All, ◌==◌, str_eq, arith, if◌then◌else◌}
use ms_ex.Http.Schemas.{reset, ErrorBody, CreateOrderResponse, PayOrderResponse, cancel_order_done}
use ms_ex.Http.Router.Prefix.{Bytes, bytes}
use ms_ex.Http.Json.{JsonObject}
use ms_ex.Http.Json.Bodies.{encode_error, encode_created, encode_paid}
use ms_ex.Http.Json.Dto.{encode_fields}
use ms_ex.Http.Json.Requests.{encode_create, encode_pay}
use ms_ex.Http.Json.RoundTrip.{unset, IsNormalDto, in_seconds}
use ms_ex.Http.Json.Marshal.{
  Jx, error_json, create_order_request_json, create_order_response_json, pay_order_request_json,
  pay_order_response_json, order_dto_json, cancel_order_response_json,
}
use ms_ex.Http.Json.Marshal.RoundTrip.{
  Back, AliasBack, cancel_order_errors, create_order_errors, get_order_errors, pay_order_errors,
  unmarshal_json-marshal_json,
}
use ms_ex.Examples.Data.{json, json_laws, by_card, request_of}
use ms_ex.Examples.Web.{shown}

abbrev created : CreateOrderResponse
created = record { order_uuid = 9; total_price = pos 500000 }

abbrev paid : PayOrderResponse
paid = record { transaction_uuid = 3 }

abbrev not_there : ErrorBody
not_there = record { code = pos 404; message = "order not found" }

-- The seven objects that occur below, by a byte each.
abbrev read_byte : Bytes → Option JsonObject
read_byte (b ∷ []) =
    if b == b'o'
    then some (encode_fields json shown)
    else if b == b'c'
    then some (encode_create json (request_of 1))
    else if b == b'r'
    then some (encode_created json created)
    else if b == b'p'
    then some (encode_pay by_card)
    else if b == b't'
    then some (encode_paid json paid)
    else if b == b'f'
    then some (encode_error not_there)
    else if b == b'e'
    then some []
    else none
read_byte _ = none

abbrev write_byte : JsonObject → Bytes
write_byte [] = bytes "e"
write_byte ((k, v) ∷ []) = if str_eq k "payment_method" then bytes "p" else bytes "t"
write_byte ((k, v) ∷ p ∷ rest) =
    if str_eq k "code"
    then bytes "f"
    else if str_eq k "hull_uuid"
    then bytes "c"
    else if str_eq p.0 "total_price"
    then bytes "r"
    else bytes "o"

abbrev jx : Jx
jx = record { write = write_byte; read = read_byte }

shown-IsNormalDto : IsNormalDto shown
unfolding reset
shown-IsNormalDto = record {
  shield = unset refl;
  weapon = unset refl;
  transaction = unset refl;
  method = unset refl;
  price = omega arith;
}

unmarshal_json-marshal_json_example :
    Back (order_dto_json jx json) shown (in_seconds shown)
    × Back (create_order_request_json jx json) (request_of 1) (request_of 1)
    × Back (create_order_response_json jx json) created created
    × Back (pay_order_request_json jx json) by_card by_card
    × Back (pay_order_response_json jx json) paid paid
    × Back (error_json jx json) not_there not_there
    × Back (cancel_order_response_json jx json) cancel_order_done cancel_order_done
    × All (AliasBack not_there) (cancel_order_errors jx json)
    × All (AliasBack not_there) (create_order_errors jx json)
    × All (AliasBack not_there) (get_order_errors jx json)
    × All (AliasBack not_there) (pay_order_errors jx json)
unmarshal_json-marshal_json_example =
    unmarshal_json-marshal_json jx json json_laws shown (request_of 1) created by_card paid
      not_there (unfold encode_fields reset in refl) (unfold encode_create reset in refl)
      (unfold encode_created in refl) (unfold encode_pay in refl) (unfold encode_paid in refl)
      (unfold encode_error in refl) refl shown-IsNormalDto (unset (unfold reset in refl))
      (unset (unfold reset in refl)) (omega arith) (omega arith)
