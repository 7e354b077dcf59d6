-- ===== src/Examples/Orders.antt =====
-- The theorems on the order service at concrete inputs.
use ms_ex.Prelude.{
  pos, ◌+ℤ◌, wrap_int64, ◌≡◌, ◌≢◌, refl, some, [], ◌∷◌, arith, lookup, insert, IsInt64, str_eq_iff,
}
use ms_ex.Errors.{ok, err, foreign}
use ms_ex.Order.Repository.{noop}
use ms_ex.Order.Repository.Memory
use ms_ex.Order.Repository.Contract.{memory_view, memory-IsStorage}
use ms_ex.Order.Repository.Store.{stored, store_save, store_get, store_laws}
use mathlib.Core.Quot
use ms_ex.Order.Service.{
  price_loop, new_order, require_pending, parse_transaction, paid_with, cancelled, send_pay_order,
  save_order, get_order, charge, with_pending, pay_order, cancel_order,
}
use ms_ex.Order.Service.Saving.{IsKeyed}
use ms_ex.Order.Service.Paying.{Paid, Unpaid, pay_order_ok, pay_order_err}
use ms_ex.Order.Service.Pricing.{InStock, sum_prices, price_loop_total}
use ms_ex.Order.Service.Cancelling.{Cancelled, cancel_order_ok}
use ms_ex.Examples.Data.{
  libs, answering, garbling, input_of, pending_order, paid_order, one_pending, one_paid, cheap_part,
}

pending_IsKeyed : IsKeyed (memory_view one_pending.stored)
unfolding lookup
pending_IsKeyed id o h = ground (arith, h)

paid_runs :
    (pay_order libs answering 7 "CARD" one_pending).0 ≡ ok (paid_with 3 "CARD" pending_order)
unfolding pay_order with_pending charge get_order require_pending send_pay_order parse_transaction
    save_order Memory.get Memory.save noop lookup insert paid_with
paid_runs = refl

pay_order_ok_example :
    Paid libs answering memory_view 7 "CARD" one_pending
      (pay_order libs answering 7 "CARD" one_pending).1
      (paid_with 3 "CARD" pending_order)
pay_order_ok_example =
    pay_order_ok libs answering memory_view memory-IsStorage 7 "CARD" one_pending pending_IsKeyed
      paid_runs

garbled_runs : (pay_order libs garbling 7 "CARD" one_pending).0 ≡ err (foreign "invalid UUID")
unfolding pay_order with_pending charge get_order require_pending send_pay_order parse_transaction
    save_order Memory.get Memory.save noop lookup insert
garbled_runs = refl

pay_order_err_example :
    Unpaid libs memory_view 7 "CARD" one_pending (pay_order libs garbling 7 "CARD" one_pending).1
pay_order_err_example =
    pay_order_err libs garbling memory_view memory-IsStorage 7 "CARD" one_pending garbled_runs

zero_IsInt64 : IsInt64 (pos 0)
zero_IsInt64 = omega arith

cheap_InStock : InStock cheap_part
cheap_InStock = omega arith

price_loop_total_example :
    price_loop (pos 0) (cheap_part ∷ cheap_part ∷ [])
    ≡ ok (wrap_int64 (pos 0 +ℤ sum_prices (cheap_part ∷ cheap_part ∷ [])))
price_loop_total_example =
    price_loop_total (pos 0) (cheap_part ∷ cheap_part ∷ []) zero_IsInt64
      (cheap_InStock, (cheap_InStock, tt))

cancelled_runs : (cancel_order libs answering 7 one_pending).0 ≡ ok (cancelled pending_order)
unfolding cancel_order with_pending get_order require_pending save_order Memory.get Memory.save noop
    lookup insert
cancelled_runs = refl

cancel_order_ok_example :
    Cancelled memory_view 7 one_pending
      (cancel_order libs answering 7 one_pending).1
      (cancelled pending_order)
cancel_order_ok_example =
    cancel_order_ok libs answering memory_view memory-IsStorage 7 one_pending pending_IsKeyed
      cancelled_runs

paid_found : memory_view one_paid.stored 7 ≡ some paid_order
unfolding lookup
paid_found = refl

paid_final : paid_order.status ≢ "PENDING_PAYMENT"
paid_final e = cc ((str_eq_iff "PAID" "PENDING_PAYMENT").1 e)

-- A store of one order, in which another is saved.
store_laws_example :
    (store_get 7 (store_save (new_order 8 5 (input_of 1) (pos 3)) (Quot.mk one_pending.stored))
      ≡ ok pending_order)
    × (store_save
          (new_order 8 5 (input_of 1) (pos 3))
          (store_save pending_order (Quot.mk one_pending.stored))
        ≡ store_save pending_order
            (store_save (new_order 8 5 (input_of 1) (pos 3)) (Quot.mk one_pending.stored)))
unfolding stored lookup new_order
store_laws_example =
    store_laws (new_order 8 5 (input_of 1) (pos 3)) pending_order 7 (Quot.mk one_pending.stored)
