-- ===== src/Payment/Api.antt =====
-- payment/pkg/api/grpc.go.
use ms_ex.Prelude.{String, ◌||◌, if◌then◌else◌}
use ms_ex.Errors.{
  Error, status, error_text, Result, ok, err, is, empty_order_uuid, invalid_order_uuid,
  unspecified_method,
}
use ms_ex.External.{Uuid, Libs, invalid_argument, internal}
use ms_ex.Wire.{ProtoPayOrderRequest}
use ms_ex.Payment.Service

unfoldable pub to_status_err : Libs → Error → Error
to_status_err L e =
    if is e empty_order_uuid || is e invalid_order_uuid || is e unspecified_method
    then status invalid_argument (error_text L.status_text e)
    else status internal (error_text L.status_text e)

abbrev pub response : Libs → Result String → Result String
response L (ok transaction_uuid) = ok transaction_uuid
response L (err e) = err (to_status_err L e)

unfoldable pub pay_order : Libs → Uuid → ProtoPayOrderRequest → Result String
pay_order L transaction_uuid request =
    response L (Service.pay_order L transaction_uuid request.order_uuid request.payment_method)
