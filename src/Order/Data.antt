-- ===== src/Order/Data.antt =====
-- The types of order/pkg/repository/repository.go.
use ms_ex.Prelude.{String, Option, ℤ}
use ms_ex.External.{Uuid, Time}

-- A Go string type: values outside the constants exist.
abbrev pub OrderStatus : Type 0
OrderStatus = String

abbrev pub status_pending_payment : OrderStatus
status_pending_payment = "PENDING_PAYMENT"

abbrev pub status_paid : OrderStatus
status_paid = "PAID"

abbrev pub status_cancelled : OrderStatus
status_cancelled = "CANCELLED"

abbrev pub PaymentMethod : Type 0
PaymentMethod = String

abbrev pub method_card : PaymentMethod
method_card = "CARD"

abbrev pub method_sbp : PaymentMethod
method_sbp = "SBP"

abbrev pub method_credit_card : PaymentMethod
method_credit_card = "CREDIT_CARD"

abbrev pub method_investor_money : PaymentMethod
method_investor_money = "INVESTOR_MONEY"

pub record Order : Type 0 where
  pub order_uuid : Uuid
  pub hull_uuid : Uuid
  pub engine_uuid : Uuid
  pub shield_uuid : Option Uuid
  pub weapon_uuid : Option Uuid
  pub total_price : ℤ
  pub transaction_uuid : Option Uuid
  pub payment_method : Option PaymentMethod
  pub status : OrderStatus
  pub created_at : Time
