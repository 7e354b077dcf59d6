-- ===== src/Http/Json/Dto.antt =====
-- OrderDto of oas_json_gen.go.
pub mod Required
pub mod Seen
use Prim.Native.Nat.{bit_or}
use ms_ex.Prelude.{ℕ, String, Bool, Option, none, some, List, [], ◌∷◌, str_eq, if◌then◌else◌, pos}
use ms_ex.Http.Schemas.{reset, nil_uuid, empty_method, OrderDto}
use ms_ex.Http.Json.Enums.{decode_order_status, decode_opt_nil_payment_method}
use ms_ex.Http.Json.Failures.{failures, no_failures}
use ms_ex.Http.Json.{JsonValue, str, num, JsonObject, JsonLib, decode_opt_nil, opt_field, ◌>>=◌}

module _ (J : JsonLib) where
  -- encodeFields
  unfoldable pub encode_fields : OrderDto → JsonObject
  encode_fields s =
      ("order_uuid", J.encode_uuid s.order_uuid)
      ∷ ("hull_uuid", J.encode_uuid s.hull_uuid)
      ∷ ("engine_uuid", J.encode_uuid s.engine_uuid)
      ∷ opt_field "shield_uuid" J.encode_uuid s.shield_uuid (
          opt_field "weapon_uuid" J.encode_uuid s.weapon_uuid (
            ("total_price", num s.total_price)
            ∷ opt_field "transaction_uuid" J.encode_uuid s.transaction_uuid (
                opt_field "payment_method" str s.payment_method
                  (("status", str s.status) ∷ ("created_at", J.encode_time s.created_at) ∷ []))))

-- The variables of Decode: the value so far and requiredBitSet.
pub record Decoding : Type 0 where
  pub dto : OrderDto
  pub required0 : ℕ
  pub required1 : ℕ

-- The zero value of OrderDto.
abbrev pub zero_dto : OrderDto
zero_dto = record {
  order_uuid = nil_uuid;
  hull_uuid = nil_uuid;
  engine_uuid = nil_uuid;
  shield_uuid = reset nil_uuid;
  weapon_uuid = reset nil_uuid;
  total_price = pos 0;
  transaction_uuid = reset nil_uuid;
  payment_method = reset empty_method;
  status = "";
  created_at = 0;
}

abbrev pub start : Decoding
start = record { dto = zero_dto; required0 = 0; required1 = 0 }

-- requiredBitSet[0] |= bit, requiredBitSet[1] |= bit
abbrev pub mark0 : ℕ → OrderDto → Decoding → Decoding
mark0 bit dto s = record s { dto = dto; required0 = bit_or s.required0 bit }

abbrev pub mark1 : ℕ → OrderDto → Decoding → Decoding
mark1 bit dto s = record s { dto = dto; required1 = bit_or s.required1 bit }

module _ (J : JsonLib) where
  -- The switch on the field's name.
  unfoldable pub decode_field : String → JsonValue → Decoding → Option Decoding
  decode_field k v s =
      if str_eq k "order_uuid"
      then (J.decode_uuid v >>= λ u. some (mark0 1 (record s.dto { order_uuid = u }) s))
      else if str_eq k "hull_uuid"
      then (J.decode_uuid v >>= λ u. some (mark0 2 (record s.dto { hull_uuid = u }) s))
      else if str_eq k "engine_uuid"
      then (J.decode_uuid v >>= λ u. some (mark0 4 (record s.dto { engine_uuid = u }) s))
      else if str_eq k "shield_uuid"
      then (decode_opt_nil nil_uuid J.decode_uuid v >>= λ o.
          some (record s { dto = record s.dto { shield_uuid = o } }))
      else if str_eq k "weapon_uuid"
      then (decode_opt_nil nil_uuid J.decode_uuid v >>= λ o.
          some (record s { dto = record s.dto { weapon_uuid = o } }))
      else if str_eq k "total_price"
      then (J.decode_int64 v >>= λ n. some (mark0 32 (record s.dto { total_price = n }) s))
      else if str_eq k "transaction_uuid"
      then (decode_opt_nil nil_uuid J.decode_uuid v >>= λ o.
          some (record s { dto = record s.dto { transaction_uuid = o } }))
      else if str_eq k "payment_method"
      then (decode_opt_nil_payment_method v >>= λ o.
          some (record s { dto = record s.dto { payment_method = o } }))
      else if str_eq k "status"
      then (decode_order_status v >>= λ t. some (mark1 1 (record s.dto { status = t }) s))
      else if str_eq k "created_at"
      then (J.decode_time v >>= λ t. some (mark1 2 (record s.dto { created_at = t }) s))
      else some s

  -- d.ObjBytes over the fields.
  unfoldable pub decode_fields : JsonObject → Decoding → Option Decoding
  decode_fields [] s = some s
  decode_fields ((k, v) ∷ rest) s = decode_field k v s >>= decode_fields rest

-- jsonFieldsNameOfOrderDto
unfoldable pub names_of_dto : List String
names_of_dto =
    "order_uuid" ∷ "hull_uuid" ∷ "engine_uuid" ∷ "shield_uuid" ∷ "weapon_uuid" ∷ "total_price"
    ∷ "transaction_uuid" ∷ "payment_method" ∷ "status" ∷ "created_at" ∷ []

-- The validation of the required fields: the names that are reported.
unfoldable pub dto_failures : Decoding → List String
unfolding failures names_of_dto
dto_failures s =
    failures names_of_dto 0 (0b00100111 ∷ 0b00000011 ∷ []) (s.required0 ∷ s.required1 ∷ [])

unfoldable pub all_required : Decoding → Bool
unfolding dto_failures
all_required s = no_failures (dto_failures s)

-- Decode
unfoldable pub decode : JsonLib → JsonObject → Option OrderDto
unfolding decode_fields all_required
decode J fields = decode_fields J fields start >>= λ s. if all_required s then some s.dto else none
