-- ===== src/Http/Json/Dto/Required.antt =====
-- The required fields of an OrderDto.
use ms_ex.Prelude.{
  String, ◌≡◌, refl, Bool, true, false, none, some, List, [], ◌∷◌, arith, ◌||◌, if◌then◌else◌,
}
use ms_ex.Http.Json.{JsonObject, JsonLib}
use ms_ex.Http.Json.Failures.{
  no_failures, mask_failures, failures, missed_loop, ones_count, trailing_zeros, reset_bit,
  field_name,
}
use ms_ex.Http.Json.Failures.Missing.{present, absent}
use ms_ex.Http.Json.Requests.Required.{marks}
use ms_ex.Http.Json.Dto.{
  Decoding, start, decode_fields, names_of_dto, dto_failures, all_required, decode,
}
use ms_ex.Http.Json.Dto.Seen.{marks4, decode_fields-AllSeen}

abbrev pub required_of_dto : List String
required_of_dto =
    "order_uuid" ∷ "hull_uuid" ∷ "engine_uuid" ∷ "total_price" ∷ "status" ∷ "created_at" ∷ []

-- The names of the fields that are not seen.
abbrev unseen : Bool → String → List String → List String
unseen seen name rest = if seen then rest else name ∷ rest

reported0 :
    (a b c d : Bool)
    → mask_failures names_of_dto 0 0b00100111 (marks4 a b c d)
      ≡ unseen a "order_uuid"
          (unseen b "hull_uuid" (unseen c "engine_uuid" (unseen d "total_price" [])))
unfolding missed_loop ones_count trailing_zeros reset_bit field_name names_of_dto
reported0 true true true true = refl
reported0 true true true false = refl
reported0 true true false true = refl
reported0 true true false false = refl
reported0 true false true true = refl
reported0 true false true false = refl
reported0 true false false true = refl
reported0 true false false false = refl
reported0 false true true true = refl
reported0 false true true false = refl
reported0 false true false true = refl
reported0 false true false false = refl
reported0 false false true true = refl
reported0 false false true false = refl
reported0 false false false true = refl
reported0 false false false false = refl

reported1 :
    (e f : Bool)
    → mask_failures names_of_dto 8 0b00000011 (marks e f)
      ≡ unseen e "status" (unseen f "created_at" [])
unfolding missed_loop ones_count trailing_zeros reset_bit field_name names_of_dto
reported1 true true = refl
reported1 true false = refl
reported1 false true = refl
reported1 false false = refl

module _ (J : JsonLib) where
  dto_failures-absent :
      (fields : JsonObject) (s : Decoding)
      → decode_fields J fields start ≡ some s
      → dto_failures s ≡ absent required_of_dto fields
  unfolding dto_failures failures
  dto_failures-absent fields s h =
      let seen =
        decode_fields-AllSeen J fields start s false false false false false false refl refl h in
      rw (seen.0, seen.1)
        (rw
          (
            reported0 (present "order_uuid" fields || false) (present "hull_uuid" fields || false)
                (present "engine_uuid" fields || false) (present "total_price" fields || false),
            reported1 (present "status" fields || false) (present "created_at" fields || false),
          )
          (ground arith))

  -- If each known field of an object has a value that can be read, then what Decode of an OrderDto
  -- reports as missing are those of its six required names, order_uuid, hull_uuid, engine_uuid,
  -- total_price, status and created_at, that no field has, in this order; and Decode ends in an
  -- error if there are any, and in the value that was read if there are none.
  pub decode-absent :
      (fields : JsonObject) (s : Decoding)
      → decode_fields J fields start ≡ some s
      → (dto_failures s ≡ absent required_of_dto fields)
        × (decode J fields
            ≡ (if no_failures (absent required_of_dto fields) then some s.dto else none))
  unfolding decode all_required
  decode-absent fields s read = (
    dto_failures-absent fields s read,
    rw (decode, read, all_required, dto_failures-absent fields s read) refl,
  )
