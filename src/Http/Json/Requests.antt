-- ===== src/Http/Json/Requests.antt =====
-- The bodies of requests of oas_json_gen.go: CreateOrderRequest and PayOrderRequest, and the
-- validation of oas_validators_gen.go.
pub mod Required
pub mod RoundTrip
use Prim.Native.Nat.{bit_or}
use ms_ex.Prelude.{ℕ, String, Bool, Option, none, some, List, [], ◌∷◌, ◌||◌, str_eq, if◌then◌else◌}
use ms_ex.Http.Schemas.{reset, nil_uuid, empty_method, CreateOrderRequest, PayOrderRequest}
use ms_ex.Http.Json.Enums.{decode_payment_method}
use ms_ex.Http.Json.Failures.{failures, no_failures}
use ms_ex.Http.Json.{JsonValue, str, JsonObject, JsonLib, decode_opt_nil, opt_field, ◌>>=◌}

-- (*CreateOrderRequest).encodeFields
unfoldable pub encode_create : JsonLib → CreateOrderRequest → JsonObject
encode_create J s =
    ("hull_uuid", J.encode_uuid s.hull_uuid)
    ∷ ("engine_uuid", J.encode_uuid s.engine_uuid)
    ∷ opt_field "shield_uuid" J.encode_uuid s.shield_uuid
        (opt_field "weapon_uuid" J.encode_uuid s.weapon_uuid [])

-- (*PayOrderRequest).encodeFields
unfoldable pub encode_pay : PayOrderRequest → JsonObject
encode_pay s = ("payment_method", str s.payment_method) ∷ []

-- The value so far, with requiredBitSet.
pub record Reading (A : Type 0) : Type 0 where
  pub value : A
  pub required : ℕ

abbrev pub read_create : Reading CreateOrderRequest
read_create = record {
  value = record {
    hull_uuid = nil_uuid;
    engine_uuid = nil_uuid;
    shield_uuid = reset nil_uuid;
    weapon_uuid = reset nil_uuid;
  };
  required = 0;
}

abbrev pub read_pay : Reading PayOrderRequest
read_pay = record { value = record { payment_method = empty_method }; required = 0 }

module _ (J : JsonLib) where
  -- The switch on the field's name of (*CreateOrderRequest).Decode.
  unfoldable pub create_field :
      String → JsonValue → Reading CreateOrderRequest → Option (Reading CreateOrderRequest)
  create_field k v s =
      if str_eq k "hull_uuid"
      then (J.decode_uuid v >>= λ u.
          some
            (record { value = record s.value { hull_uuid = u }; required = bit_or s.required 1 }))
      else if str_eq k "engine_uuid"
      then (J.decode_uuid v >>= λ u.
          some
            (record { value = record s.value { engine_uuid = u }; required = bit_or s.required 2 }))
      else if str_eq k "shield_uuid"
      then (decode_opt_nil nil_uuid J.decode_uuid v >>= λ o.
          some (record s { value = record s.value { shield_uuid = o } }))
      else if str_eq k "weapon_uuid"
      then (decode_opt_nil nil_uuid J.decode_uuid v >>= λ o.
          some (record s { value = record s.value { weapon_uuid = o } }))
      else some s

  unfoldable pub create_fields :
      JsonObject → Reading CreateOrderRequest → Option (Reading CreateOrderRequest)
  create_fields [] s = some s
  create_fields ((k, v) ∷ rest) s = create_field k v s >>= create_fields rest

-- The switch on the field's name of (*PayOrderRequest).Decode.
unfoldable pub pay_field :
    String → JsonValue → Reading PayOrderRequest → Option (Reading PayOrderRequest)
pay_field k v s =
    if str_eq k "payment_method"
    then (decode_payment_method v >>= λ m.
        some (record { value = record { payment_method = m }; required = bit_or s.required 1 }))
    else some s

unfoldable pub pay_fields : JsonObject → Reading PayOrderRequest → Option (Reading PayOrderRequest)
pay_fields [] s = some s
pay_fields ((k, v) ∷ rest) s = pay_field k v s >>= pay_fields rest

-- jsonFieldsNameOfCreateOrderRequest, jsonFieldsNameOfPayOrderRequest
unfoldable pub names_of_create : List String
names_of_create = "hull_uuid" ∷ "engine_uuid" ∷ "shield_uuid" ∷ "weapon_uuid" ∷ []

unfoldable pub names_of_pay : List String
names_of_pay = "payment_method" ∷ []

-- The validation of the required fields, of one mask: the names that are reported as missing.
unfoldable pub reported : {A : Type 0} → List String → ℕ → Reading A → List String
unfolding failures
reported names mask s = failures names 0 (mask ∷ []) (s.required ∷ [])

unfoldable pub has_required : {A : Type 0} → List String → ℕ → Reading A → Bool
unfolding reported
has_required names mask s = no_failures (reported names mask s)

-- (*CreateOrderRequest).Decode
unfoldable pub decode_create : JsonLib → JsonObject → Option CreateOrderRequest
unfolding create_fields has_required names_of_create
decode_create J fields = create_fields J fields read_create >>= λ s.
    if has_required names_of_create 0b00000011 s then some s.value else none

-- (*PayOrderRequest).Decode
unfoldable pub decode_pay : JsonObject → Option PayOrderRequest
unfolding pay_fields has_required names_of_pay
decode_pay fields = pay_fields fields read_pay >>= λ s.
    if has_required names_of_pay 0b00000001 s then some s.value else none

-- PaymentMethod.Validate and (*PayOrderRequest).Validate: whether there is no error.
unfoldable pub is_valid_method : String → Bool
is_valid_method s =
    str_eq s "CARD" || str_eq s "SBP" || str_eq s "CREDIT_CARD" || str_eq s "INVESTOR_MONEY"

unfoldable pub is_valid_pay : PayOrderRequest → Bool
unfolding is_valid_method
is_valid_pay s = is_valid_method s.payment_method
