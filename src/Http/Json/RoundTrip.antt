-- ===== src/Http/Json/RoundTrip.antt =====
-- Writing an OrderDto and reading it back.
use ms_ex.Prelude.{String, ℤ, IsInt64, ◌≡◌, refl, ap, false, Option, some, [], ◌∷◌, ◌⊎◌, inl, inr}
use ms_ex.External.{Uuid, Time}
use ms_ex.Http.Schemas.{OptNil, new_opt_nil, reset, set_to_null, nil_uuid, empty_method, OrderDto}
use ms_ex.Http.Json.{
  to_seconds, JsonValue, str, num, is_null, JsonObject, JsonLib, JsonLaws, encode_opt_nil,
  decode_opt_nil, opt_field,
}
use ms_ex.Http.Json.Enums.{decode_payment_method, status_of_same, method_of_same}
use ms_ex.Http.Json.Dto.{
  Decoding, zero_dto, start, mark0, mark1, encode_fields, decode_field, decode_fields, all_required,
  decode,
}

-- The optional values that the constructors of the type make: unset, null, or a value.
pub data IsNormal {A : Type 0} (zero_value : A) (o : OptNil A) : Type 0 where
  unset : o ≡ reset zero_value → IsNormal zero_value o
  nulled : o ≡ set_to_null zero_value → IsNormal zero_value o
  valued : (v : A) → o ≡ new_opt_nil v → IsNormal zero_value o

pub record IsNormalDto (dto : OrderDto) : Type 0 where
  pub shield : IsNormal nil_uuid dto.shield_uuid
  pub weapon : IsNormal nil_uuid dto.weapon_uuid
  pub transaction : IsNormal nil_uuid dto.transaction_uuid
  pub method : IsNormal empty_method dto.payment_method
  pub price : IsInt64 dto.total_price

-- What is left of an order when it was written and read.
abbrev pub in_seconds : OrderDto → OrderDto
in_seconds dto = record dto { created_at = to_seconds dto.created_at }

-- Writing one optional value and reading it back: it is unset, or it is written as a field whose
-- value is read as it.
pub record Back {A : Type 0} (zero_value : A) (encode : A → JsonValue) (dec : JsonValue → Option A)
    (o : OptNil A) : Type 0 where
  pub written :
      (name : String) (rest : JsonObject)
      → opt_field name encode o rest ≡ (name, encode_opt_nil encode o) ∷ rest
  pub read : decode_opt_nil zero_value dec (encode_opt_nil encode o) ≡ some o

pub opt_nil-Back :
    {A : Type 0} (zero_value : A) (encode : A → JsonValue) (dec : JsonValue → Option A)
    (o : OptNil A)
    → ((v : A) → dec (encode v) ≡ some v)
    → ((v : A) → is_null (encode v) ≡ false)
    → IsNormal zero_value o
    → (o ≡ reset zero_value) ⊎ Back zero_value encode dec o
unfolding decode_opt_nil opt_field reset set_to_null new_opt_nil
opt_nil-Back zero_value encode dec o back value (unset e) = inl e
opt_nil-Back zero_value encode dec o back value (nulled e) =
    inr (record { written = λ name rest. rw e refl; read = rw e refl })
opt_nil-Back zero_value encode dec o back value (valued v e) =
    inr (record { written = λ name rest. rw e refl; read = rw e (rw (value v, back v) refl) })

abbrev with_shield : OptNil Uuid → Decoding → Decoding
with_shield o s = record s { dto = record s.dto { shield_uuid = o } }

abbrev with_weapon : OptNil Uuid → Decoding → Decoding
with_weapon o s = record s { dto = record s.dto { weapon_uuid = o } }

abbrev with_transaction : OptNil Uuid → Decoding → Decoding
with_transaction o s = record s { dto = record s.dto { transaction_uuid = o } }

abbrev with_method : OptNil String → Decoding → Decoding
with_method o s = record s { dto = record s.dto { payment_method = o } }

abbrev three_uuids : Uuid → Uuid → Uuid → Decoding
three_uuids a b c = record start {
  dto = record zero_dto { order_uuid = a; hull_uuid = b; engine_uuid = c };
  required0 = 7;
}

abbrev to_shield : OrderDto → Decoding
to_shield dto =
    with_shield dto.shield_uuid (three_uuids dto.order_uuid dto.hull_uuid dto.engine_uuid)

abbrev to_weapon : OrderDto → Decoding
to_weapon dto = with_weapon dto.weapon_uuid (to_shield dto)

abbrev to_price : OrderDto → Decoding
to_price dto =
    mark0 32 (record (to_weapon dto).dto { total_price = dto.total_price }) (to_weapon dto)

abbrev to_transaction : OrderDto → Decoding
to_transaction dto = with_transaction dto.transaction_uuid (to_price dto)

abbrev with_last : String → Time → Decoding → Decoding
with_last status t s =
    mark1 2 (record s.dto { status = status; created_at = t })
      (mark1 1 (record s.dto { status = status }) s)

module _ (J : JsonLib) (laws : JsonLaws J) where
  shield_step :
      (o : OptNil Uuid) (rest : JsonObject) (s : Decoding)
      → IsNormal nil_uuid o
      → decode_fields J
          (opt_field "shield_uuid" J.encode_uuid o rest)
          (with_shield (reset nil_uuid) s)
        ≡ decode_fields J rest (with_shield o s)
  unfolding decode_fields decode_field
  shield_step o rest s h =
      elim (opt_nil-Back nil_uuid J.encode_uuid J.decode_uuid o laws.uuid_back laws.uuid_value h) [
        | inl e ↦ rw e (unfold opt_field reset in refl)
        | inr back ↦ rw (back.written "shield_uuid" rest, back.read) refl
      ]

  weapon_step :
      (o : OptNil Uuid) (rest : JsonObject) (s : Decoding)
      → IsNormal nil_uuid o
      → decode_fields J
          (opt_field "weapon_uuid" J.encode_uuid o rest)
          (with_weapon (reset nil_uuid) s)
        ≡ decode_fields J rest (with_weapon o s)
  unfolding decode_fields decode_field
  weapon_step o rest s h =
      elim (opt_nil-Back nil_uuid J.encode_uuid J.decode_uuid o laws.uuid_back laws.uuid_value h) [
        | inl e ↦ rw e (unfold opt_field reset in refl)
        | inr back ↦ rw (back.written "weapon_uuid" rest, back.read) refl
      ]

  transaction_step :
      (o : OptNil Uuid) (rest : JsonObject) (s : Decoding)
      → IsNormal nil_uuid o
      → decode_fields J
          (opt_field "transaction_uuid" J.encode_uuid o rest)
          (with_transaction (reset nil_uuid) s)
        ≡ decode_fields J rest (with_transaction o s)
  unfolding decode_fields decode_field
  transaction_step o rest s h =
      elim (opt_nil-Back nil_uuid J.encode_uuid J.decode_uuid o laws.uuid_back laws.uuid_value h) [
        | inl e ↦ rw e (unfold opt_field reset in refl)
        | inr back ↦ rw (back.written "transaction_uuid" rest, back.read) refl
      ]

  method_step :
      (o : OptNil String) (rest : JsonObject) (s : Decoding)
      → IsNormal empty_method o
      → decode_fields J (opt_field "payment_method" str o rest) (with_method (reset empty_method) s)
        ≡ decode_fields J rest (with_method o s)
  unfolding decode_fields decode_field
  method_step o rest s h =
      elim (opt_nil-Back empty_method str decode_payment_method o (λ v. ap some (method_of_same v))
        (λ v. refl) h) [
          | inl e ↦ rw e (unfold opt_field reset in refl)
          | inr back ↦ rw (back.written "payment_method" rest, back.read) refl
        ]

  uuid_fields :
      (a b c : Uuid) (rest : JsonObject)
      → decode_fields J
          (("order_uuid", J.encode_uuid a)
            ∷ ("hull_uuid", J.encode_uuid b)
            ∷ ("engine_uuid", J.encode_uuid c)
            ∷ rest)
          start
        ≡ decode_fields J rest (three_uuids a b c)
  unfolding decode_fields decode_field
  uuid_fields a b c rest = rw (laws.uuid_back a, laws.uuid_back b, laws.uuid_back c) refl

  price_field :
      (n : ℤ) (rest : JsonObject) (s : Decoding)
      → IsInt64 n
      → decode_fields J (("total_price", num n) ∷ rest) s
        ≡ decode_fields J rest (mark0 32 (record s.dto { total_price = n }) s)
  unfolding decode_fields decode_field
  price_field n rest s h = rw (laws.int64_back n h) refl

  last_fields :
      (status : String) (t : Time) (s : Decoding)
      → decode_fields J (("status", str status) ∷ ("created_at", J.encode_time t) ∷ []) s
        ≡ some (with_last status (to_seconds t) s)
  unfolding decode_fields decode_field
  last_fields status t s = rw (laws.time_back t, status_of_same status) refl

  -- For an OrderDto whose optional values are unset, null or set as the constructors of their type
  -- make them, and whose price is in the range of an int64, Decode of the fields that Encode writes
  -- returns that OrderDto, its creation time cut to whole seconds.
  pub decode-encode_fields :
      (dto : OrderDto) → IsNormalDto dto → decode J (encode_fields J dto) ≡ some (in_seconds dto)
  unfolding decode encode_fields all_required
  decode-encode_fields dto n =
      rw
        (
          uuid_fields dto.order_uuid dto.hull_uuid dto.engine_uuid _,
          shield_step dto.shield_uuid _ (three_uuids dto.order_uuid dto.hull_uuid dto.engine_uuid)
              n.shield,
          weapon_step dto.weapon_uuid _ (to_shield dto) n.weapon,
          price_field dto.total_price _ (to_weapon dto) n.price,
          transaction_step dto.transaction_uuid _ (to_price dto) n.transaction,
          method_step dto.payment_method _ (to_transaction dto) n.method,
          last_fields dto.status dto.created_at
              (with_method dto.payment_method (to_transaction dto)),
        )
        refl
