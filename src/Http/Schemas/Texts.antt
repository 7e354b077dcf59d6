-- ===== src/Http/Schemas/Texts.antt =====
-- The enums of shared/pkg/openapi/order/v1/oas_schemas_gen.go as texts, against the validation of
-- oas_validators_gen.go. `none` is an error.
use ms_ex.Prelude.{
  String, ◌≡◌, Bool, false, ◌||◌, Option, none, some, List, [], ◌∷◌, str_eq, str_eq_iff,
  if◌then◌else◌, arith,
}
use ms_ex.Http.Json.Requests.{is_valid_method}
use ms_ex.Http.Json.Bodies.{is_valid_status}

-- OrderStatus.AllValues
unfoldable pub order_statuses : List String
order_statuses = "PENDING_PAYMENT" ∷ "PAID" ∷ "CANCELLED" ∷ []

-- PaymentMethod.AllValues
unfoldable pub payment_methods : List String
payment_methods = "CARD" ∷ "SBP" ∷ "CREDIT_CARD" ∷ "INVESTOR_MONEY" ∷ []

-- OrderStatus.MarshalText
unfoldable pub marshal_status : String → Option String
marshal_status s =
    if str_eq s "PENDING_PAYMENT"
    then some s
    else if str_eq s "PAID"
    then some s
    else if str_eq s "CANCELLED"
    then some s
    else none

-- (*OrderStatus).UnmarshalText
unfoldable pub unmarshal_status : String → Option String
unmarshal_status data_text =
    if str_eq data_text "PENDING_PAYMENT"
    then some "PENDING_PAYMENT"
    else if str_eq data_text "PAID"
    then some "PAID"
    else if str_eq data_text "CANCELLED"
    then some "CANCELLED"
    else none

-- PaymentMethod.MarshalText
unfoldable pub marshal_method : String → Option String
marshal_method s =
    if str_eq s "CARD"
    then some s
    else if str_eq s "SBP"
    then some s
    else if str_eq s "CREDIT_CARD"
    then some s
    else if str_eq s "INVESTOR_MONEY"
    then some s
    else none

-- (*PaymentMethod).UnmarshalText
unfoldable pub unmarshal_method : String → Option String
unmarshal_method data_text =
    if str_eq data_text "CARD"
    then some "CARD"
    else if str_eq data_text "SBP"
    then some "SBP"
    else if str_eq data_text "CREDIT_CARD"
    then some "CREDIT_CARD"
    else if str_eq data_text "INVESTOR_MONEY"
    then some "INVESTOR_MONEY"
    else none

-- Whether a text is one of the values.
abbrev pub is_one_of : List String → String → Bool
is_one_of [] s = false
is_one_of (v ∷ vs) s = str_eq s v || is_one_of vs s

abbrev pub if_valid : Bool → String → Option String
if_valid ok s = if ok then some s else none

-- The three readings of an enum agree with its validation.
pub record Agree (valid : Bool) (values : List String) (marshalled unmarshalled : Option String)
    (s : String) : Type 0 where
  pub listed : is_one_of values s ≡ valid
  pub written : marshalled ≡ if_valid valid s
  pub read : unmarshalled ≡ if_valid valid s

-- For any text and for both enums, the values that AllValues lists, the texts that MarshalText
-- writes and that UnmarshalText reads, and what Validate accepts are the same, and writing and
-- reading keep the text.
pub texts-Agree :
    (s : String)
    → Agree (is_valid_status s) order_statuses (marshal_status s) (unmarshal_status s) s
      × Agree (is_valid_method s) payment_methods (marshal_method s) (unmarshal_method s) s
unfolding is_valid_status is_valid_method order_statuses payment_methods marshal_status
    unmarshal_status marshal_method unmarshal_method
texts-Agree s = (
  record {
    listed = ground arith;
    written = ground arith;
    read =
        ground
          (arith, str_eq_iff s "PENDING_PAYMENT", str_eq_iff s "PAID", str_eq_iff s "CANCELLED");
  },
  record {
    listed = ground arith;
    written = ground arith;
    read = ground (
      arith,
      str_eq_iff s "CARD",
      str_eq_iff s "SBP",
      str_eq_iff s "CREDIT_CARD",
      str_eq_iff s "INVESTOR_MONEY",
    );
  },
)
