-- ===== src/Http/Json/Bodies.antt =====
-- The bodies of responses of oas_json_gen.go but for OrderDto: Error, CreateOrderResponse,
-- PayOrderResponse and CancelOrderResponse; and the validation of an OrderDto of
-- oas_validators_gen.go.
use Prim.Native.Nat.{bit_or}
use ms_ex.Prelude.{
  String, IsInt64, ◌≡◌, refl, ◌&&◌, Bool, true, Option, none, some, List, [], ◌∷◌, ◌||◌, str_eq,
  if◌then◌else◌, pos,
}
use ms_ex.Http.Schemas.{get, nil_uuid, ErrorBody, CreateOrderResponse, PayOrderResponse, OrderDto}
use ms_ex.Http.Json.{JsonValue, str, num, JsonObject, JsonLib, JsonLaws, decode_str, ◌>>=◌}
use ms_ex.Http.Json.Requests.{Reading, has_required, is_valid_method}

abbrev pub read_error : Reading ErrorBody
read_error = record { value = record { code = pos 0; message = "" }; required = 0 }

abbrev pub read_created : Reading CreateOrderResponse
read_created = record {
  value = record { order_uuid = nil_uuid; total_price = pos 0 };
  required = 0;
}

abbrev pub read_paid : Reading PayOrderResponse
read_paid = record { value = record { transaction_uuid = nil_uuid }; required = 0 }

-- jsonFieldsNameOfError, jsonFieldsNameOfCreateOrderResponse, jsonFieldsNameOfPayOrderResponse
unfoldable pub names_of_error : List String
names_of_error = "code" ∷ "message" ∷ []

unfoldable pub names_of_created : List String
names_of_created = "order_uuid" ∷ "total_price" ∷ []

unfoldable pub names_of_paid : List String
names_of_paid = "transaction_uuid" ∷ []

-- d.ObjBytes over the fields, with the switch on a field's name.
unfoldable pub obj_bytes :
    {A : Type 0}
    → (String → JsonValue → Reading A → Option (Reading A))
    → JsonObject
    → Reading A
    → Option (Reading A)
obj_bytes field [] s = some s
obj_bytes field ((k, v) ∷ rest) s = field k v s >>= obj_bytes field rest

-- (*Error).encodeFields
unfoldable pub encode_error : ErrorBody → JsonObject
encode_error s = ("code", num s.code) ∷ ("message", str s.message) ∷ []

module _ (J : JsonLib) where
  -- (*CreateOrderResponse).encodeFields
  unfoldable pub encode_created : CreateOrderResponse → JsonObject
  encode_created s =
      ("order_uuid", J.encode_uuid s.order_uuid) ∷ ("total_price", num s.total_price) ∷ []

  -- (*PayOrderResponse).encodeFields
  unfoldable pub encode_paid : PayOrderResponse → JsonObject
  encode_paid s = ("transaction_uuid", J.encode_uuid s.transaction_uuid) ∷ []

  unfoldable pub error_field : String → JsonValue → Reading ErrorBody → Option (Reading ErrorBody)
  error_field k v s =
      if str_eq k "code"
      then (J.decode_int v >>= λ n.
          some (record { value = record s.value { code = n }; required = bit_or s.required 1 }))
      else if str_eq k "message"
      then (decode_str v >>= λ t.
          some (record { value = record s.value { message = t }; required = bit_or s.required 2 }))
      else some s

  unfoldable pub created_field :
      String → JsonValue → Reading CreateOrderResponse → Option (Reading CreateOrderResponse)
  created_field k v s =
      if str_eq k "order_uuid"
      then (J.decode_uuid v >>= λ u.
          some
            (record { value = record s.value { order_uuid = u }; required = bit_or s.required 1 }))
      else if str_eq k "total_price"
      then (J.decode_int64 v >>= λ n.
          some
            (record { value = record s.value { total_price = n }; required = bit_or s.required 2 }))
      else some s

  unfoldable pub paid_field :
      String → JsonValue → Reading PayOrderResponse → Option (Reading PayOrderResponse)
  paid_field k v s =
      if str_eq k "transaction_uuid"
      then (J.decode_uuid v >>= λ u.
          some (record { value = record { transaction_uuid = u }; required = bit_or s.required 1 }))
      else some s

  -- (*Error).Decode
  unfoldable pub decode_error : JsonObject → Option ErrorBody
  unfolding obj_bytes error_field has_required names_of_error
  decode_error fields = obj_bytes error_field fields read_error >>= λ s.
      if has_required names_of_error 0b00000011 s then some s.value else none

  -- (*CreateOrderResponse).Decode
  unfoldable pub decode_created : JsonObject → Option CreateOrderResponse
  unfolding obj_bytes created_field has_required names_of_created
  decode_created fields = obj_bytes created_field fields read_created >>= λ s.
      if has_required names_of_created 0b00000011 s then some s.value else none

  -- (*PayOrderResponse).Decode
  unfoldable pub decode_paid : JsonObject → Option PayOrderResponse
  unfolding obj_bytes paid_field has_required names_of_paid
  decode_paid fields = obj_bytes paid_field fields read_paid >>= λ s.
      if has_required names_of_paid 0b00000001 s then some s.value else none

-- OrderStatus.Validate: whether there is no error.
unfoldable pub is_valid_status : String → Bool
is_valid_status s = str_eq s "PENDING_PAYMENT" || str_eq s "PAID" || str_eq s "CANCELLED"

-- `if value, ok := s.PaymentMethod.Get(); ok { ... }`
abbrev is_valid_if_set : Option String → Bool
is_valid_if_set none = true
is_valid_if_set (some m) = is_valid_method m

-- (*OrderDto).Validate
unfoldable pub is_valid_dto : OrderDto → Bool
unfolding is_valid_status
is_valid_dto s = is_valid_if_set (get s.payment_method) && is_valid_status s.status

module _ (J : JsonLib) (laws : JsonLaws J) where
  pub decode_error-encode_error :
      (e : ErrorBody) → IsInt64 e.code → decode_error J (encode_error e) ≡ some e
  unfolding decode_error encode_error obj_bytes error_field has_required names_of_error
  decode_error-encode_error e h = rw (laws.int_back e.code h) refl

  pub decode_created-encode_created :
      (s : CreateOrderResponse)
      → IsInt64 s.total_price
      → decode_created J (encode_created J s) ≡ some s
  unfolding decode_created encode_created obj_bytes created_field has_required names_of_created
  decode_created-encode_created s h =
      rw (laws.uuid_back s.order_uuid, laws.int64_back s.total_price h) refl

  pub decode_paid-encode_paid : (s : PayOrderResponse) → decode_paid J (encode_paid J s) ≡ some s
  unfolding decode_paid encode_paid obj_bytes paid_field has_required names_of_paid
  decode_paid-encode_paid s = rw (laws.uuid_back s.transaction_uuid) refl
