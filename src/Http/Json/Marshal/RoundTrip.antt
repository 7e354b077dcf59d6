-- ===== src/Http/Json/Marshal/RoundTrip.antt =====
-- What MarshalJSON writes is read by UnmarshalJSON (oas_json_gen.go).
use ms_ex.Prelude.{◌≡◌, refl, some, List, [], ◌∷◌, All, IsInt64}
use ms_ex.Http.Schemas.{
  nil_uuid, ErrorBody, CreateOrderRequest, CreateOrderResponse, PayOrderRequest, PayOrderResponse,
  OrderDto, GetOrderRes, CreateOrderRes, PayOrderRes, CancelOrderRes, cancel_order_done,
}
use ms_ex.Http.Json.{JsonObject, JsonLib, JsonLaws}
use ms_ex.Http.Json.Aliases.{decode_alias}
use ms_ex.Http.Json.Bodies.{
  encode_error, encode_created, encode_paid, decode_error-encode_error,
  decode_created-encode_created, decode_paid-encode_paid,
}
use ms_ex.Http.Json.Dto.{encode_fields}
use ms_ex.Http.Json.Requests.{encode_create, encode_pay}
use ms_ex.Http.Json.RoundTrip.{IsNormal, IsNormalDto, in_seconds, decode-encode_fields}
use ms_ex.Http.Json.Requests.RoundTrip.{decode_create-encode_create, decode_pay-encode_pay}
use ms_ex.Http.Json.Marshal.{
  Jx, Methods, methods, Alias, error_json, create_order_request_json, create_order_response_json,
  pay_order_request_json, pay_order_response_json, order_dto_json, cancel_order_response_json,
  cancel_order_bad_request_json, cancel_order_conflict_json, cancel_order_internal_json,
  cancel_order_not_found_json, create_order_bad_request_json, create_order_conflict_json,
  create_order_internal_json, create_order_not_found_json, get_order_bad_request_json,
  get_order_internal_json, get_order_not_found_json, pay_order_bad_request_json,
  pay_order_conflict_json, pay_order_internal_json, pay_order_not_found_json,
}

-- The value is read as it was written.
abbrev pub Back : {A B : Type 0} → Methods A B → A → B → Type 0
Back m a b = m.unmarshal_json (m.marshal_json a) ≡ some b

abbrev pub AliasBack : {R : Type 0} → ErrorBody → Alias R → Type 0
AliasBack e alias = Back alias.json e (alias.convert e)

module _ (jx : Jx) (J : JsonLib) where
  abbrev pub cancel_order_errors : List (Alias CancelOrderRes)
  cancel_order_errors =
      cancel_order_bad_request_json jx J
      ∷ cancel_order_conflict_json jx J
      ∷ cancel_order_internal_json jx J
      ∷ cancel_order_not_found_json jx J
      ∷ []

  abbrev pub create_order_errors : List (Alias CreateOrderRes)
  create_order_errors =
      create_order_bad_request_json jx J
      ∷ create_order_conflict_json jx J
      ∷ create_order_internal_json jx J
      ∷ create_order_not_found_json jx J
      ∷ []

  abbrev pub get_order_errors : List (Alias GetOrderRes)
  get_order_errors =
      get_order_bad_request_json jx J
      ∷ get_order_internal_json jx J
      ∷ get_order_not_found_json jx J
      ∷ []

  abbrev pub pay_order_errors : List (Alias PayOrderRes)
  pay_order_errors =
      pay_order_bad_request_json jx J
      ∷ pay_order_conflict_json jx J
      ∷ pay_order_internal_json jx J
      ∷ pay_order_not_found_json jx J
      ∷ []

-- jx reads an object as it wrote it.
abbrev pub IsReadBack : Jx → JsonObject → Type 0
IsReadBack jx fields = jx.read (jx.write fields) ≡ some fields

module _ (jx : Jx) (J : JsonLib) (laws : JsonLaws J) where
  alias-Back :
      {R : Type 0} (convert : ErrorBody → R) (e : ErrorBody)
      → IsReadBack jx (encode_error e)
      → IsInt64 e.code
      → Back (methods jx encode_error (decode_alias J convert)) e (convert e)
  unfolding decode_alias
  alias-Back convert e read h = rw (read, decode_error-encode_error J laws e h) refl

  -- UnmarshalJSON of a type returns the value that MarshalJSON of it wrote: for the request and the
  -- response of CreateOrder and of PayOrder, Error, CancelOrderResponse and each of the fifteen
  -- types that are an Error by another name; for OrderDto it returns that value with the creation
  -- time cut to whole seconds. The optional ids and the optional method are unset, null or set, as
  -- the constructors of their types make them, and the prices and the code are in the range of an
  -- int64; jx reads the objects of these values as it wrote them.
  pub unmarshal_json-marshal_json :
      (dto : OrderDto) (create : CreateOrderRequest) (created : CreateOrderResponse)
      (pay : PayOrderRequest) (paid : PayOrderResponse) (e : ErrorBody)
      → IsReadBack jx (encode_fields J dto)
      → IsReadBack jx (encode_create J create)
      → IsReadBack jx (encode_created J created)
      → IsReadBack jx (encode_pay pay)
      → IsReadBack jx (encode_paid J paid)
      → IsReadBack jx (encode_error e)
      → IsReadBack jx []
      → IsNormalDto dto
      → IsNormal nil_uuid create.shield_uuid
      → IsNormal nil_uuid create.weapon_uuid
      → IsInt64 created.total_price
      → IsInt64 e.code
      → Back (order_dto_json jx J) dto (in_seconds dto)
        × Back (create_order_request_json jx J) create create
        × Back (create_order_response_json jx J) created created
        × Back (pay_order_request_json jx J) pay pay
        × Back (pay_order_response_json jx J) paid paid
        × Back (error_json jx J) e e
        × Back (cancel_order_response_json jx J) cancel_order_done cancel_order_done
        × All (AliasBack e) (cancel_order_errors jx J)
        × All (AliasBack e) (create_order_errors jx J)
        × All (AliasBack e) (get_order_errors jx J)
        × All (AliasBack e) (pay_order_errors jx J)
  unmarshal_json-marshal_json dto create created pay paid e read_dto read_create read_created
        read_pay read_paid read_error read_none normal shield weapon price code =
      (
        rw (read_dto, decode-encode_fields J laws dto normal) refl,
        rw (read_create, decode_create-encode_create J laws create shield weapon) refl,
        rw (read_created, decode_created-encode_created J laws created price) refl,
        rw (read_pay, decode_pay-encode_pay pay) refl,
        rw (read_paid, decode_paid-encode_paid J laws paid) refl,
        rw (read_error, decode_error-encode_error J laws e code) refl,
        rw read_none refl,
        (
          alias-Back _ e read_error code,
          (
            alias-Back _ e read_error code,
            (alias-Back _ e read_error code, (alias-Back _ e read_error code, tt)),
          ),
        ),
        (
          alias-Back _ e read_error code,
          (
            alias-Back _ e read_error code,
            (alias-Back _ e read_error code, (alias-Back _ e read_error code, tt)),
          ),
        ),
        (
          alias-Back _ e read_error code,
          (alias-Back _ e read_error code, (alias-Back _ e read_error code, tt)),
        ),
        (
          alias-Back _ e read_error code,
          (
            alias-Back _ e read_error code,
            (alias-Back _ e read_error code, (alias-Back _ e read_error code, tt)),
          ),
        ),
      )
