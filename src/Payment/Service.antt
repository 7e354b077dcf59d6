-- ===== src/Payment/Service.antt =====
-- payment/pkg/service/service.go; uuid.New comes as an argument.
use ms_ex.Prelude.{String, none, some, ◌==◌, str_eq, if◌then◌else◌}
use ms_ex.Errors.{
  sentinel, with_detail, Result, ok, err, empty_order_uuid, invalid_order_uuid, unspecified_method,
}
use ms_ex.External.{Uuid, Libs}
use ms_ex.Wire.{ProtoPaymentMethod, payment_method_unspecified}

unfoldable pub pay_order : Libs → Uuid → String → ProtoPaymentMethod → Result String
pay_order L transaction_uuid order_uuid method =
    if str_eq order_uuid ""
    then err (sentinel empty_order_uuid)
    else if method == payment_method_unspecified
    then err (sentinel unspecified_method)
    else elim (L.uuid_parse order_uuid) [
      | none ↦ err (with_detail (sentinel invalid_order_uuid) order_uuid)
      | some _ ↦ ok (L.uuid_string transaction_uuid)
    ]
