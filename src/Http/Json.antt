-- ===== src/Http/Json.antt =====
-- shared/pkg/openapi/order/v1/oas_json_gen.go: writing and reading the bodies, over the fields of one
-- JSON object. The text of a value is the jx library's.
pub mod Aliases
pub mod Bodies
pub mod Failures
pub mod Dto
pub mod Enums
pub mod Marshal
pub mod Requests
pub mod RoundTrip
use ms_ex.Prelude.{
  ℕ, ◌*◌, ◌/◌, String, ℤ, IsInt64, ◌≡◌, Bool, true, false, Option, none, some, List, [], ◌∷◌,
  if◌then◌else◌,
}
use ms_ex.External.{Uuid, Time}
use ms_ex.Http.Schemas.{OptNil, set_to_null}

-- The values that jx reads and writes here.
pub data JsonValue : Type 0 where
  null : JsonValue
  str : String → JsonValue
  num : ℤ → JsonValue
  other : JsonValue

-- The fields of an object, in the order in which they stand.
abbrev pub JsonObject : Type 0
JsonObject = List (String × JsonValue)

-- json.EncodeUUID, json.DecodeUUID, json.EncodeDateTime, json.DecodeDateTime and jx's reading of an
-- int64 and of an int, of 64 bits; `none` is a decoding error.
pub record JsonLib : Type 0 where
  pub encode_uuid : Uuid → JsonValue
  pub decode_uuid : JsonValue → Option Uuid
  pub encode_time : Time → JsonValue
  pub decode_time : JsonValue → Option Time
  pub decode_int64 : JsonValue → Option ℤ
  pub decode_int : JsonValue → Option ℤ

abbrev pub is_null : JsonValue → Bool
is_null null = true
is_null _ = false

-- A time of nanoseconds to whole seconds, which is all that the layout RFC 3339 of
-- json.EncodeDateTime writes.
abbrev pub to_seconds : Time → Time
to_seconds t = t / 1000000000 * 1000000000

pub record JsonLaws (J : JsonLib) : Type 0 where
  pub uuid_back : (u : Uuid) → J.decode_uuid (J.encode_uuid u) ≡ some u
  pub uuid_value : (u : Uuid) → is_null (J.encode_uuid u) ≡ false
  pub time_back : (t : Time) → J.decode_time (J.encode_time t) ≡ some (to_seconds t)
  pub int64_back : (n : ℤ) → IsInt64 n → J.decode_int64 (num n) ≡ some n
  pub int_back : (n : ℤ) → IsInt64 n → J.decode_int (num n) ≡ some n

-- d.Str, d.StrBytes
abbrev pub decode_str : JsonValue → Option String
decode_str (str s) = some s
decode_str _ = none

module _ {A : Type 0} where
  -- OptNilUUID.Encode and OptNilPaymentMethod.Encode, where the value is set.
  unfoldable pub encode_opt_nil : (A → JsonValue) → OptNil A → JsonValue
  encode_opt_nil encode o = if o.null then null else encode o.value

  abbrev decoded : Option A → Option (OptNil A)
  decoded none = none
  decoded (some v) = some (record { value = v; set = true; null = false })

  -- OptNilUUID.Decode and OptNilPaymentMethod.Decode, after Reset; `zero` is the zero value.
  unfoldable pub decode_opt_nil : A → (JsonValue → Option A) → JsonValue → Option (OptNil A)
  decode_opt_nil zero_value decode v =
      if is_null v then some (set_to_null zero_value) else decoded (decode v)

  -- `if o.Set { e.FieldStart(name); o.Encode(e) }`
  unfoldable pub opt_field : String → (A → JsonValue) → OptNil A → JsonObject → JsonObject
  unfolding encode_opt_nil
  opt_field name encode o rest = if o.set then (name, encode_opt_nil encode o) ∷ rest else rest

-- `if err != nil { return err }`
infixl 5 ◌>>=◌
abbrev pub ◌>>=◌ : {A B : Type 0} → Option A → (A → Option B) → Option B
none >>= f = none
some a >>= f = f a
