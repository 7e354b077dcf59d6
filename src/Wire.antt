-- ===== src/Wire.antt =====
-- The protobuf messages of shared/proto that the services exchange: their fields, and the enums as
-- the open int32 values that proto3 makes of them (as unsigned bit patterns).
use ms_ex.Prelude.{ℕ, String, List, ℤ}
use ms_ex.External.{Time}

-- inventoryv1.PartType
abbrev pub PartType : Type 0
PartType = ℕ

abbrev pub part_type_unspecified : PartType
part_type_unspecified = 0

abbrev pub part_type_hull : PartType
part_type_hull = 1

abbrev pub part_type_engine : PartType
part_type_engine = 2

abbrev pub part_type_shield : PartType
part_type_shield = 3

abbrev pub part_type_weapon : PartType
part_type_weapon = 4

-- inventoryv1.Part
pub record ProtoPart : Type 0 where
  pub uuid : String
  pub name : String
  pub description : String
  pub price : ℤ
  pub part_type : PartType
  pub stock_quantity : ℤ
  pub created_at : Time

-- inventoryv1.ListPartsRequest
pub record ListPartsRequest : Type 0 where
  pub part_type : PartType
  pub uuids : List String

-- paymentv1.PaymentMethod
abbrev pub ProtoPaymentMethod : Type 0
ProtoPaymentMethod = ℕ

abbrev pub payment_method_unspecified : ProtoPaymentMethod
payment_method_unspecified = 0

abbrev pub payment_method_card : ProtoPaymentMethod
payment_method_card = 1

abbrev pub payment_method_sbp : ProtoPaymentMethod
payment_method_sbp = 2

abbrev pub payment_method_credit_card : ProtoPaymentMethod
payment_method_credit_card = 3

abbrev pub payment_method_investor_money : ProtoPaymentMethod
payment_method_investor_money = 4

-- paymentv1.PayOrderRequest
pub record ProtoPayOrderRequest : Type 0 where
  pub order_uuid : String
  pub payment_method : ProtoPaymentMethod
