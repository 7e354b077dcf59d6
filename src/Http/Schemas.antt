-- ===== src/Http/Schemas.antt =====
-- shared/pkg/openapi/order/v1/oas_schemas_gen.go: the bodies of requests and responses, and the
-- response types that oas_interfaces_gen.go joins for each operation.
pub mod Texts
use ms_ex.Prelude.{String, ℤ, Bool, true, false, Option, none, some, ◌≡◌, refl}
use ms_ex.External.{Uuid, Time}

-- OptNilUUID and OptNilPaymentMethod: optional, and null is allowed.
pub record OptNil {ℓ} (A : Type ℓ) : Type ℓ where
  pub value : A
  pub set : Bool
  pub null : Bool

module _ {ℓ} {A : Type ℓ} where
  -- NewOptNilUUID, NewOptNilPaymentMethod
  unfoldable pub new_opt_nil : A → OptNil A
  new_opt_nil v = record { value = v; set = true; null = false }

  -- The value after Reset, which is also Go's zero value; `zero` is the zero value of the type.
  unfoldable pub reset : A → OptNil A
  reset zero_value = record { value = zero_value; set = false; null = false }

  -- SetToNull
  unfoldable pub set_to_null : A → OptNil A
  set_to_null zero_value = record { value = zero_value; set = true; null = true }

  abbrev get_set : Bool → Bool → A → Option A
  get_set true set v = none
  get_set false false v = none
  get_set false true v = some v

  -- Get
  unfoldable pub get : OptNil A → Option A
  get o = get_set o.null o.set o.value

  pub get-new_opt_nil : (v : A) → get (new_opt_nil v) ≡ some v
  unfolding get new_opt_nil
  get-new_opt_nil v = refl

  pub get-reset : (v : A) → get (reset v) ≡ none
  unfolding get reset
  get-reset v = refl

-- The zero values of uuid.UUID and of a string type.
abbrev pub nil_uuid : Uuid
nil_uuid = 0

abbrev pub empty_method : String
empty_method = ""

pub record CreateOrderRequest : Type 0 where
  pub hull_uuid : Uuid
  pub engine_uuid : Uuid
  pub shield_uuid : OptNil Uuid
  pub weapon_uuid : OptNil Uuid

pub record CreateOrderResponse : Type 0 where
  pub order_uuid : Uuid
  pub total_price : ℤ

-- `Error`
pub record ErrorBody : Type 0 where
  pub code : ℤ
  pub message : String

pub record OrderDto : Type 0 where
  pub order_uuid : Uuid
  pub hull_uuid : Uuid
  pub engine_uuid : Uuid
  pub shield_uuid : OptNil Uuid
  pub weapon_uuid : OptNil Uuid
  pub total_price : ℤ
  pub transaction_uuid : OptNil Uuid
  pub payment_method : OptNil String
  pub status : String
  pub created_at : Time

pub record PayOrderRequest : Type 0 where
  pub payment_method : String

pub record PayOrderResponse : Type 0 where
  pub transaction_uuid : Uuid

pub data GetOrderRes : Type 0 where
  get_order_ok : OrderDto → GetOrderRes
  get_order_bad_request get_order_not_found get_order_internal : ErrorBody → GetOrderRes

pub data CreateOrderRes : Type 0 where
  create_order_created : CreateOrderResponse → CreateOrderRes
  create_order_bad_request create_order_not_found : ErrorBody → CreateOrderRes
  create_order_conflict create_order_internal : ErrorBody → CreateOrderRes

pub data PayOrderRes : Type 0 where
  pay_order_paid : PayOrderResponse → PayOrderRes
  pay_order_bad_request pay_order_not_found : ErrorBody → PayOrderRes
  pay_order_conflict pay_order_internal : ErrorBody → PayOrderRes

pub data CancelOrderRes : Type 0 where
  cancel_order_done : CancelOrderRes
  cancel_order_bad_request cancel_order_not_found : ErrorBody → CancelOrderRes
  cancel_order_conflict cancel_order_internal : ErrorBody → CancelOrderRes
