-- ===== src/Examples/Clients.antt =====
-- The theorems on the client's calls at concrete inputs.
use ms_ex.Prelude.{pos, ◌≡◌, refl, true, [], arith, lookup, IsInt64, add_int64}
use ms_ex.Order.Repository.Memory as Memory
use ms_ex.Order.Repository.{noop}
use ms_ex.Order.Repository.Memory.{Orders}
use ms_ex.Order.Service as Service
use ms_ex.Order.Service.{World}
use ms_ex.Order.Api as Api
use ms_ex.Order.Api.{answers}
use ms_ex.Http.Schemas.{
  reset, get_order_ok, create_order_created, pay_order_paid, CreateOrderRes, PayOrderRes,
  cancel_order_done,
}
use ms_ex.Http.Router.Prefix.{bytes}
use ms_ex.Http.Json.{opt_field}
use ms_ex.Http.Json.Bodies.{encode_created, encode_paid}
use ms_ex.Http.Json.Dto.{encode_fields}
use ms_ex.Http.Json.RoundTrip.{unset, in_seconds}
use ms_ex.Http.Json.Requests.{encode_create, encode_pay, is_valid_pay}
use ms_ex.Http.Encoders.{
  encode_get_order_response, encode_create_order_response, encode_pay_order_response,
  encode_cancel_order_response,
}
use ms_ex.Http.Client.{
  received, send_create_order, send_get_order, send_pay_order, send_cancel_order,
}
use ms_ex.Http.Client.Calls.{IsReadObject, Delivers}
use ms_ex.Errors.{ok}
use ms_ex.Order.Service.Life.{open_order}
use ms_ex.Http.Client.Calls.Stored.{HasKnownMethod, send_get_order_stored}
use ms_ex.Http.Client.Calls.Replies.{
  send_create_order_served, send_pay_order_served, send_cancel_order_served,
}
use ms_ex.Examples.Data.{
  libs, answering, json, json_laws, by_card, request_of, one_pending, no_orders, pending_order,
}
use ms_ex.Examples.Web.{web, browser, home, web_laws, read_seven, deliver, transport}

abbrev paid_world : World Orders
paid_world = (Api.pay_order libs answering by_card 7 one_pending).1

abbrev paid_answer : PayOrderRes
paid_answer = pay_order_paid (record { transaction_uuid = 3 })

pays_done : Api.pay_order libs answering by_card 7 one_pending ≡ (answers paid_answer, paid_world)
unfolding Api.pay_order Api.pay_order_reply Service.pay_order Service.with_pending Service.charge
    Service.get_order Service.require_pending Service.send_pay_order Service.parse_transaction
    Service.paid_with Service.save_order noop Memory.get Memory.save lookup
pays_done = refl

paid_delivered : Delivers web deliver (encode_pay_order_response json paid_answer)
unfolding encode_pay_order_response encode_paid
paid_delivered = record {
  resp = _;
  received = refl;
  same = record { status = refl; media_type = refl; body = refl };
}

pay_written : IsReadObject web browser (encode_pay by_card)
unfolding encode_pay
pay_written = record { some_byte = refl; read = refl }

by_card_valid : is_valid_pay by_card ≡ true
unfolding is_valid_pay
by_card_valid = refl

send_pay_order_served_example :
    send_pay_order web browser transport home by_card 7 one_pending
    ≡ (received paid_answer, paid_world)
send_pay_order_served_example =
    send_pay_order_served web json_laws browser [] home web_laws (λ s. s) libs answering 9 5 deliver
      by_card 7 (bytes "7") paid_answer one_pending paid_world read_seven pay_written by_card_valid
      pays_done paid_delivered

abbrev created_answer : CreateOrderRes
created_answer = create_order_created (record { order_uuid = 9; total_price = pos 500000 })

abbrev created_world : World Orders
created_world = (Api.create_order libs answering 9 5 (request_of 1) no_orders).1

creates_done :
    Api.create_order libs answering 9 5 (request_of 1) no_orders
    ≡ (answers created_answer, created_world)
unfolding Api.create_order Api.create_order_reply Service.create_order Service.send_list_parts
    Service.checked_parts Service.price_loop Service.new_order Service.save_order noop Memory.save
    add_int64
creates_done = refl

created_delivered : Delivers web deliver (encode_create_order_response json created_answer)
unfolding encode_create_order_response encode_created
created_delivered = record {
  resp = _;
  received = refl;
  same = record { status = refl; media_type = refl; body = refl };
}

request_written : IsReadObject web browser (encode_create json (request_of 1))
unfolding encode_create
request_written = record { some_byte = refl; read = refl }

price_IsInt64 : IsInt64 (pos 500000)
price_IsInt64 = omega arith

send_create_order_served_example :
    send_create_order web browser transport home (request_of 1) no_orders
    ≡ (received created_answer, created_world)
send_create_order_served_example =
    send_create_order_served web json_laws browser [] home web_laws (λ s. s) libs answering 9 5
      deliver (request_of 1) created_answer no_orders created_world (unset (unfold reset in refl))
      (unset (unfold reset in refl)) request_written creates_done price_IsInt64 created_delivered

found_pending : Service.get_order libs answering 7 one_pending ≡ (ok pending_order, one_pending)
unfolding Service.get_order Memory.get lookup
found_pending = refl

pending_delivered :
    Delivers web deliver
      (encode_get_order_response json (get_order_ok (Api.to_order_dto pending_order)))
unfolding encode_get_order_response encode_fields opt_field reset Api.to_order_dto
pending_delivered = record {
  resp = _;
  received = refl;
  same = record { status = refl; media_type = refl; body = refl };
}

pending_method : HasKnownMethod pending_order
pending_method m h = cc h

pending_price : IsInt64 pending_order.total_price
pending_price = omega arith

send_get_order_stored_example :
    send_get_order web browser transport home 7 one_pending
    ≡ (received (get_order_ok (in_seconds (Api.to_order_dto pending_order))), one_pending)
send_get_order_stored_example =
    send_get_order_stored web json_laws browser [] home web_laws (λ s. s) libs answering 9 5 deliver
      7 (bytes "7") pending_order one_pending one_pending found_pending (open_order refl refl refl)
      pending_method pending_price read_seven pending_delivered

abbrev cancelled_world : World Orders
cancelled_world = (Api.cancel_order libs answering 7 one_pending).1

cancels_done :
    Api.cancel_order libs answering 7 one_pending ≡ (answers cancel_order_done, cancelled_world)
unfolding Api.cancel_order Api.cancel_order_reply Service.cancel_order Service.with_pending
    Service.get_order Service.require_pending Service.cancelled Service.save_order noop Memory.get
    Memory.save lookup
cancels_done = refl

cancelled_delivered : Delivers web deliver (encode_cancel_order_response cancel_order_done)
unfolding encode_cancel_order_response
cancelled_delivered = record {
  resp = _;
  received = refl;
  same = record { status = refl; media_type = refl; body = refl };
}

send_cancel_order_served_example :
    send_cancel_order web browser transport home 7 one_pending
    ≡ (received cancel_order_done, cancelled_world)
send_cancel_order_served_example =
    send_cancel_order_served web json_laws browser [] home web_laws (λ s. s) libs answering 9 5
      deliver 7 (bytes "7") cancel_order_done one_pending cancelled_world read_seven cancels_done
      cancelled_delivered
