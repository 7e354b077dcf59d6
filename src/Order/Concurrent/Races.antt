-- ===== src/Order/Concurrent/Races.antt =====
-- Overlapping requests for one order, over the orders in memory.
use ms_ex.Prelude.{
  ℕ, String, ◌≡◌, refl, true, some, List, [], ◌∷◌, map, ◌==◌, if◌then◌else◌, str_eq, str_eq_iff,
  lookup, lookup-insert_self,
}
use ms_ex.Errors.{Result, ok}
use ms_ex.External.{Uuid, Libs}
use ms_ex.Wire.{ProtoPart, ListPartsRequest, ProtoPayOrderRequest}
use ms_ex.Order.Data.{Order, PaymentMethod, status_pending_payment}
use ms_ex.Order.Repository.{noop}
use ms_ex.Order.Repository.Memory
use ms_ex.Order.Repository.Memory.{Orders}
use ms_ex.Order.Repository.Contract.{memory}
use ms_ex.Order.Service.{
  Call, pay_order_call, World, Service, require_pending, pay_request, paid_with, cancelled,
  send_pay_order, save_order, get_order,
}
use ms_ex.Order.Service.Paying.{parse_transaction-some}
use ms_ex.Order.Concurrent.{
  Request, paying, cancelling, finished, advance, System, Turn, take_turn, run,
}

abbrev pub turn_of : ℕ → Turn
turn_of i = record { who = i; drawn = 0; now = 0 }

-- Two requests, and no others.
abbrev pub two_requests : {R : Type 0} → Request → Request → World R → System R
two_requests first second w = record { world = w; requests = λ i. if i == 0 then first else second }

module _ (L : Libs) (inventory_client : List Call → ListPartsRequest → Result (List ProtoPart))
    (payment_client : List Call → ProtoPayOrderRequest → Result String) where
  abbrev pub in_memory : Service Orders
  in_memory = record {
    inventory_client = inventory_client;
    payment_client = payment_client;
    repo = memory;
    tr_manager = noop;
  }

  module _ (o : Order) (w : World Orders) (stored : lookup o.order_uuid w.stored ≡ some o)
      (pending : o.status ≡ status_pending_payment) where
    test : str_eq o.status status_pending_payment ≡ true
    test = (str_eq_iff o.status status_pending_payment).1 pending

    -- With the orders in memory, for a stored pending order: if PayOrder reads it, CancelOrder
    -- reads it, PayOrder charges and saves, and CancelOrder saves, where the payment service
    -- answers with a transaction id, then it was charged once, both requests end without an error,
    -- and what is stored is the cancelled order without the transaction.
    pub cancelled_after_charge :
        (method : PaymentMethod) (text : String) (t : Uuid)
        → payment_client w.calls (pay_request L o method) ≡ ok text
        → L.uuid_parse text ≡ some t
        → let s =
            run L in_memory
              (map turn_of (0 ∷ 1 ∷ 0 ∷ 0 ∷ 1 ∷ []))
              (two_requests (paying o.order_uuid method) (cancelling o.order_uuid) w) in
          (s.requests 0 ≡ finished (ok (paid_with t method o)))
          × (s.requests 1 ≡ finished (ok (cancelled o)))
          × (s.world.calls ≡ pay_order_call (pay_request L o method) ∷ w.calls)
          × (lookup o.order_uuid s.world.stored ≡ some (cancelled o))
    unfolding run take_turn advance get_order require_pending send_pay_order save_order Memory.get
        Memory.save noop
    cancelled_after_charge method text t answered parsed =
        rw (stored, Memory.found, test, answered, parse_transaction-some L text t parsed)
          (
            refl,
            refl,
            refl,
            unfold paid_with cancelled in lookup-insert_self o.order_uuid (cancelled o) _,
          )

    -- With the orders in memory, for a stored pending order: if two requests to pay both read it,
    -- and then the first charges and saves and after it the second, where the payment service
    -- answers both with a transaction id, then it was charged twice, both requests end without an
    -- error, and only the second transaction is stored.
    pub charged_twice :
        (method method' : PaymentMethod) (text text' : String) (t t' : Uuid)
        → payment_client w.calls (pay_request L o method) ≡ ok text
        → L.uuid_parse text ≡ some t
        → payment_client
            (pay_order_call (pay_request L o method) ∷ w.calls)
            (pay_request L o method')
          ≡ ok text'
        → L.uuid_parse text' ≡ some t'
        → let s =
            run L in_memory
              (map turn_of (0 ∷ 1 ∷ 0 ∷ 0 ∷ 1 ∷ 1 ∷ []))
              (two_requests (paying o.order_uuid method) (paying o.order_uuid method') w) in
          (s.requests 0 ≡ finished (ok (paid_with t method o)))
          × (s.requests 1 ≡ finished (ok (paid_with t' method' o)))
          × (s.world.calls
              ≡ pay_order_call (pay_request L o method')
                ∷ pay_order_call (pay_request L o method)
                ∷ w.calls)
          × (lookup o.order_uuid s.world.stored ≡ some (paid_with t' method' o))
    unfolding run take_turn advance get_order require_pending send_pay_order save_order Memory.get
        Memory.save noop
    charged_twice method method' text text' t t' answered parsed answered' parsed' =
        rw
          (
            stored,
            Memory.found,
            test,
            answered,
            parse_transaction-some L text t parsed,
            answered',
            parse_transaction-some L text' t' parsed',
          )
          (
            refl,
            refl,
            refl,
            unfold paid_with in lookup-insert_self o.order_uuid (paid_with t' method' o) _,
          )
