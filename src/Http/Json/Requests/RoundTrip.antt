-- ===== src/Http/Json/Requests/RoundTrip.antt =====
-- Writing the body of a request and reading it back.
use ms_ex.Prelude.{◌≡◌, refl, some, [], ◌∷◌, inl, inr}
use ms_ex.External.{Uuid}
use ms_ex.Http.Schemas.{OptNil, reset, nil_uuid, CreateOrderRequest, PayOrderRequest}
use ms_ex.Http.Json.{JsonObject, JsonLib, JsonLaws, opt_field}
use ms_ex.Http.Json.RoundTrip.{IsNormal, opt_nil-Back}
use ms_ex.Http.Json.Enums.{method_of_same}
use ms_ex.Http.Json.Requests.{
  Reading, encode_create, encode_pay, read_create, create_field, create_fields, pay_fields,
  pay_field, has_required, names_of_create, names_of_pay, decode_create, decode_pay,
}

abbrev reading_create : Uuid → Uuid → OptNil Uuid → OptNil Uuid → Reading CreateOrderRequest
reading_create hull engine shield weapon = record {
  value = record {
    hull_uuid = hull;
    engine_uuid = engine;
    shield_uuid = shield;
    weapon_uuid = weapon;
  };
  required = 3;
}

module _ (J : JsonLib) (laws : JsonLaws J) where
  create_shield :
      (hull engine : Uuid) (shield : OptNil Uuid) (rest : JsonObject)
      → IsNormal nil_uuid shield
      → create_fields J
          (opt_field "shield_uuid" J.encode_uuid shield rest)
          (reading_create hull engine (reset nil_uuid) (reset nil_uuid))
        ≡ create_fields J rest (reading_create hull engine shield (reset nil_uuid))
  unfolding create_fields create_field
  create_shield hull engine shield rest h =
      elim (opt_nil-Back nil_uuid J.encode_uuid J.decode_uuid shield laws.uuid_back laws.uuid_value
        h) [
          | inl e ↦ rw e (unfold opt_field reset in refl)
          | inr back ↦ rw (back.written "shield_uuid" rest, back.read) refl
        ]

  create_weapon :
      (hull engine : Uuid) (shield weapon : OptNil Uuid)
      → IsNormal nil_uuid weapon
      → create_fields J
          (opt_field "weapon_uuid" J.encode_uuid weapon [])
          (reading_create hull engine shield (reset nil_uuid))
        ≡ some (reading_create hull engine shield weapon)
  unfolding create_fields create_field
  create_weapon hull engine shield weapon h =
      elim (opt_nil-Back nil_uuid J.encode_uuid J.decode_uuid weapon laws.uuid_back laws.uuid_value
        h) [
          | inl e ↦ rw e (unfold opt_field reset in refl)
          | inr back ↦ rw (back.written "weapon_uuid" [], back.read) refl
        ]

  create_uuids :
      (hull engine : Uuid) (rest : JsonObject)
      → create_fields J
          (("hull_uuid", J.encode_uuid hull) ∷ ("engine_uuid", J.encode_uuid engine) ∷ rest)
          read_create
        ≡ create_fields J rest (reading_create hull engine (reset nil_uuid) (reset nil_uuid))
  unfolding create_fields create_field
  create_uuids hull engine rest = rw (laws.uuid_back hull, laws.uuid_back engine) refl

  pub decode_create-encode_create :
      (req : CreateOrderRequest)
      → IsNormal nil_uuid req.shield_uuid
      → IsNormal nil_uuid req.weapon_uuid
      → decode_create J (encode_create J req) ≡ some req
  unfolding decode_create encode_create has_required names_of_create
  decode_create-encode_create req shield weapon =
      rw
        (
          create_uuids req.hull_uuid req.engine_uuid _,
          create_shield req.hull_uuid req.engine_uuid req.shield_uuid _ shield,
          create_weapon req.hull_uuid req.engine_uuid req.shield_uuid req.weapon_uuid weapon,
        )
        refl

pub decode_pay-encode_pay : (req : PayOrderRequest) → decode_pay (encode_pay req) ≡ some req
unfolding decode_pay encode_pay pay_fields pay_field has_required names_of_pay
decode_pay-encode_pay req = rw (method_of_same req.payment_method) refl
