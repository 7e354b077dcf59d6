-- ===== src/Examples/Life.antt =====
-- The theorems on sequences of operations at concrete inputs.
use ms_ex.Prelude.{◌≡◌, ◌≢◌, refl, sym, subst, some, [], ◌∷◌, arith, ==_iff, lookup, str_eq_iff}
use ms_ex.External.{Uuid}
use ms_ex.Order.Data.{Order, status_pending_payment}
use ms_ex.Order.Repository.Contract.{memory_view, memory-IsStorage}
use ms_ex.Order.Service.{cancel_order, pay_order}
use ms_ex.Order.Service.Life.{IsSound, IsWellFormed, open_order, Follows, terms}
use ms_ex.Order.Service.Life as Life
use ms_ex.Order.Service.Trace.{Step, pays_for, withdraws, here, next, Reach-IsSound, Reach-final}
use ms_ex.Examples.Data.{libs, answering, pending_order, paid_order, one_pending, one_paid}

only_order :
    (p : Order) (id : Uuid) (o : Order)
    → p.order_uuid ≡ 7
    → lookup id ((7, p) ∷ []) ≡ some o
    → (o ≡ p) × (o.order_uuid ≡ id)
unfolding lookup
only_order p id o key h = (ground (arith, h), ground (arith, h, key, ==_iff 7 id))

one_IsSound : (p : Order) → p.order_uuid ≡ 7 → IsWellFormed p → IsSound (memory_view ((7, p) ∷ []))
one_IsSound p key good = record {
  keyed = λ id o h. (only_order p id o key h).1;
  well_formed = λ id o h. subst IsWellFormed (sym (only_order p id o key h).0) good;
}

pub pending_IsSound : IsSound (memory_view one_pending.stored)
pending_IsSound = one_IsSound pending_order refl (open_order refl refl refl)

pub paid_IsSound : IsSound (memory_view one_paid.stored)
paid_IsSound = one_IsSound paid_order refl (Life.paid_order 9 "CARD" refl refl refl)

paying :
    Step libs answering memory_view one_pending (pay_order libs answering 7 "CARD" one_pending).1
paying = pays_for 7 "CARD" refl

cancelling : Step libs answering memory_view one_paid (cancel_order libs answering 7 one_paid).1
cancelling = withdraws 7 refl

Reach-IsSound_example :
    IsSound (memory_view (pay_order libs answering 7 "CARD" one_pending).1.stored)
Reach-IsSound_example =
    Reach-IsSound libs answering memory_view memory-IsStorage pending_IsSound (next here paying)

pending_found : memory_view one_pending.stored 7 ≡ some pending_order
unfolding lookup
pending_found = refl

stored_paid : memory_view one_paid.stored 7 ≡ some paid_order
unfolding lookup
stored_paid = refl

pub not_pending : paid_order.status ≢ status_pending_payment
not_pending e = cc ((str_eq_iff "PAID" "PENDING_PAYMENT").1 e)

Reach-final_example :
    memory_view (cancel_order libs answering 7 one_paid).1.stored 7 ≡ some paid_order
Reach-final_example =
    Reach-final libs answering memory_view memory-IsStorage 7 paid_IsSound (next here cancelling)
      stored_paid not_pending
