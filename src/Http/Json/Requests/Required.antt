-- ===== src/Http/Json/Requests/Required.antt =====
-- The required fields of the request bodies.
use Prim.Native.Nat.{bit_or}
use ms_ex.Prelude.{
  ℕ, ◌+◌, String, ◌≡◌, refl, sym, Bool, true, false, none, some, List, [], ◌∷◌, inl, inr, arith,
  ◌||◌, str_eq, Option-cases, if◌then◌else◌,
}
use ms_ex.Http.Schemas.{CreateOrderRequest}
use ms_ex.Http.Json.{JsonValue, JsonObject, JsonLib, decode_opt_nil}
use ms_ex.Http.Json.Failures.{
  no_failures, failures, missed_loop, ones_count, trailing_zeros, reset_bit, field_name,
}
use ms_ex.Http.Json.Failures.Missing.{present, absent, other_name}
use ms_ex.Http.Json.Requests.{
  Reading, read_create, create_field, create_fields, names_of_create, reported, has_required,
  decode_create,
}

-- The bits of two fields.
abbrev pub marks : Bool → Bool → ℕ
marks a b = (if a then 1 else 0) + (if b then 2 else 0)

pub or-first : (a b : Bool) → bit_or (marks a b) 1 ≡ marks true b
or-first true true = refl
or-first true false = refl
or-first false true = refl
or-first false false = refl

pub or-second : (a b : Bool) → bit_or (marks a b) 2 ≡ marks a true
or-second true true = refl
or-second true false = refl
or-second false true = refl
or-second false false = refl

pub or_assoc : (a b c : Bool) → (a || b) || c ≡ a || (b || c)
or_assoc a b c = ground arith

abbrev pub required_of_create : List String
required_of_create = "hull_uuid" ∷ "engine_uuid" ∷ []

module _ (J : JsonLib) where
  create_field-marks :
      (k : String) (v : JsonValue) (s : Reading CreateOrderRequest) (a b : Bool)
      {s' : Reading CreateOrderRequest}
      → s.required ≡ marks a b
      → create_field J k v s ≡ some s'
      → s'.required ≡ marks (a || str_eq k "hull_uuid") (b || str_eq k "engine_uuid")
  unfolding create_field decode_opt_nil
  create_field-marks k v s a b seen h =
      ground
        (arith, h, seen, or-first a b, or-second a b, other_name k "hull_uuid" "engine_uuid" refl)

  create_fields-marks :
      (fields : JsonObject) (s : Reading CreateOrderRequest) (a b : Bool)
      {s' : Reading CreateOrderRequest}
      → s.required ≡ marks a b
      → create_fields J fields s ≡ some s'
      → s'.required ≡ marks (a || present "hull_uuid" fields) (b || present "engine_uuid" fields)
  unfolding create_fields
  create_fields-marks [] s a b seen h = ground (arith, h, seen)
  create_fields-marks ((k, v) ∷ fields) s a b seen h = elim (Option-cases (create_field J k v s)) [
    | inl failed ↦ cc (rw (create_fields, failed) at h)
    | inr (s₁, read) ↦
        rw
          (
            sym (or_assoc a (str_eq k "hull_uuid") (present "hull_uuid" fields)),
            sym (or_assoc b (str_eq k "engine_uuid") (present "engine_uuid" fields)),
          )
          (create_fields-marks fields s₁ (a || str_eq k "hull_uuid") (b || str_eq k "engine_uuid")
            (create_field-marks k v s a b seen read) (rw (create_fields, read) at h))
  ]

-- The names of the fields that are not seen.
abbrev unseen : Bool → Bool → List String
unseen a b =
    let rest = if b then [] else "engine_uuid" ∷ [] in if a then rest else "hull_uuid" ∷ rest

reported-unseen :
    (s : Reading CreateOrderRequest) (a b : Bool)
    → s.required ≡ marks a b
    → reported names_of_create 0b00000011 s ≡ unseen a b
unfolding reported failures names_of_create missed_loop ones_count trailing_zeros reset_bit
    field_name
reported-unseen s true true e = rw e refl
reported-unseen s true false e = rw e refl
reported-unseen s false true e = rw e refl
reported-unseen s false false e = rw e refl

module _ (J : JsonLib) where
  create_fields-absent :
      (fields : JsonObject) (s : Reading CreateOrderRequest)
      → create_fields J fields read_create ≡ some s
      → reported names_of_create 0b00000011 s ≡ absent required_of_create fields
  create_fields-absent fields s h =
      reported-unseen s (present "hull_uuid" fields) (present "engine_uuid" fields)
        (create_fields-marks J fields read_create false false refl h)

  -- If each known field of an object has a value that can be read, then what Decode of a
  -- CreateOrderRequest reports as missing are the names among hull_uuid and engine_uuid that no
  -- field has, in this order; and Decode ends in an error if there are any, and in the value that
  -- was read if there are none. Other fields may stand anywhere, and a name may stand more than
  -- once.
  pub decode_create-absent :
      (fields : JsonObject) (s : Reading CreateOrderRequest)
      → create_fields J fields read_create ≡ some s
      → (reported names_of_create 0b00000011 s ≡ absent required_of_create fields)
        × (decode_create J fields
            ≡ (if no_failures (absent required_of_create fields) then some s.value else none))
  unfolding decode_create has_required
  decode_create-absent fields s read = (
    create_fields-absent fields s read,
    rw (decode_create, read, has_required, create_fields-absent fields s read) refl,
  )
