-- ===== src/Http/Json/Enums.antt =====
-- OrderStatus and PaymentMethod of oas_json_gen.go: any text is read.
use ms_ex.Prelude.{String, ◌≡◌, Option, some, arith, str_eq, str_eq_iff, if◌then◌else◌}
use ms_ex.Http.Schemas.{OptNil, empty_method}
use ms_ex.Http.Json.{JsonValue, decode_str, decode_opt_nil, ◌>>=◌}

-- The switch of (*OrderStatus).Decode.
unfoldable pub status_of : String → String
status_of v =
    if str_eq v "PENDING_PAYMENT"
    then "PENDING_PAYMENT"
    else if str_eq v "PAID"
    then "PAID"
    else if str_eq v "CANCELLED"
    then "CANCELLED"
    else v

-- The switch of (*PaymentMethod).Decode.
unfoldable pub method_of : String → String
method_of v =
    if str_eq v "CARD"
    then "CARD"
    else if str_eq v "SBP"
    then "SBP"
    else if str_eq v "CREDIT_CARD"
    then "CREDIT_CARD"
    else if str_eq v "INVESTOR_MONEY"
    then "INVESTOR_MONEY"
    else v

abbrev pub decode_order_status : JsonValue → Option String
decode_order_status v = decode_str v >>= λ s. some (status_of s)

abbrev pub decode_payment_method : JsonValue → Option String
decode_payment_method v = decode_str v >>= λ s. some (method_of s)

-- (*OptNilPaymentMethod).Decode
abbrev pub decode_opt_nil_payment_method : JsonValue → Option (OptNil String)
decode_opt_nil_payment_method = decode_opt_nil empty_method decode_payment_method

pub status_of_same : (v : String) → status_of v ≡ v
unfolding status_of
status_of_same v =
    ground (arith, str_eq_iff v "PENDING_PAYMENT", str_eq_iff v "PAID", str_eq_iff v "CANCELLED")

pub method_of_same : (v : String) → method_of v ≡ v
unfolding method_of
method_of_same v = ground (
  arith,
  str_eq_iff v "CARD",
  str_eq_iff v "SBP",
  str_eq_iff v "CREDIT_CARD",
  str_eq_iff v "INVESTOR_MONEY",
)
