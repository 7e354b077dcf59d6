-- ===== src/Order/Service/Paying.antt =====
-- PayOrder of order/pkg/service/service.go, over any storage.
use ms_ex.Prelude.{String, ◌≡◌, refl, sym, subst, ap, ◌∙◌, some, ◌∷◌, arith, inl, inr, ◌⊎◌}
use ms_ex.Errors.{Error, Result, ok, err}
use ms_ex.External.{Uuid, Libs}
use ms_ex.Wire.{ProtoPayOrderRequest}
use ms_ex.Action.{continue, continue-eq-ok}
use ms_ex.Order.Data.{Order, PaymentMethod, status_pending_payment}
use ms_ex.Order.Repository.{View, put, Fits, IsStorage}
use ms_ex.Order.Service.{
  pay_order_call, World, Service, send_pay_order, save_order, parse_transaction, paid_with,
  pay_order, pay_request, charge,
}
use ms_ex.Order.Service.Saving.{
  IsKeyed, SameView, save_order_ok, save_order_err, calls-save_order, with_pending-cases,
}

parse_transaction_ok :
    (L : Libs) (text : String) {t : Uuid}
    → parse_transaction L text ≡ ok t
    → L.uuid_parse text ≡ some t
unfolding parse_transaction
parse_transaction_ok L text h = ground arith

pub parse_transaction-some :
    (L : Libs) (text : String) (t : Uuid)
    → L.uuid_parse text ≡ some t
    → parse_transaction L text ≡ ok t
unfolding parse_transaction
parse_transaction-some L text t h = rw (parse_transaction, h) refl

-- What a payment that succeeded did.
pub record Paid {R : Type 0} (L : Libs) (svc : Service R) (view : R → View) (id : Uuid)
    (method : PaymentMethod) (w w' : World R) (o : Order) : Type 0 where
  pub old : Order
  pub text : String
  pub transaction : Uuid
  pub found : view w.stored id ≡ some old
  pub pending : old.status ≡ status_pending_payment
  pub answered : svc.payment_client w.calls (pay_request L old method) ≡ ok text
  pub parsed : L.uuid_parse text ≡ some transaction
  pub result : o ≡ paid_with transaction method old
  pub sent : w'.calls ≡ pay_order_call (pay_request L old method) ∷ w.calls
  pub written : SameView (view w'.stored) (put o (view w.stored))

-- What is left of a payment that failed.
pub record Unpaid {R : Type 0} (L : Libs) (view : R → View) (id : Uuid) (method : PaymentMethod)
    (w w' : World R) : Type 0 where
  pub unchanged : SameView (view w'.stored) (view w.stored)
  pub asked :
      (w'.calls ≡ w.calls)
      ⊎ ((old : Order) × (view w.stored id ≡ some old)
          × (old.status ≡ status_pending_payment)
          × (w'.calls ≡ pay_order_call (pay_request L old method) ∷ w.calls))

module _ {R : Type 0} (L : Libs) (svc : Service R) (view : R → View)
    (storage : IsStorage svc.repo svc.tr_manager view) where
  -- From the call of the payment service on.
  charge_ok :
      (id : Uuid) (method : PaymentMethod) (w : World R) (old : Order) {o : Order}
      → IsKeyed (view w.stored)
      → view w.stored id ≡ some old
      → old.status ≡ status_pending_payment
      → (charge L svc method old w).0 ≡ ok o
      → Paid L svc view id method w (charge L svc method old w).1 o
  unfolding charge send_pay_order
  charge_ok id method w old {o} keyed found pending h =
      let sent = pay_request L old method in
      let w' = record w { calls = pay_order_call sent ∷ w.calls } in
      let (text, answered, h', e) = continue-eq-ok (svc.payment_client w.calls sent) _ w' h in
      let (t, parsed, h'', e') = continue-eq-ok (parse_transaction L text) _ w' h' in
      let paid = paid_with t method old in
      let same_key = keyed id old found in
      let fits : Fits paid (view w.stored paid.order_uuid) =
        unfold paid_with in subst (Fits paid) (sym (ap (view w.stored) same_key ∙ found)) refl in
      let (result, written) = save_order_ok L svc view storage paid w' h'' fits in
      let after : View = view (save_order L svc paid w').1.stored in
      subst (λ p. Paid L svc view id method w p.1 o) (sym (e ∙ e'))
        (record {
          old = old;
          text = text;
          transaction = t;
          found = found;
          pending = pending;
          answered = answered;
          parsed = parse_transaction_ok L text parsed;
          result = result;
          sent = calls-save_order L svc view storage paid w';
          written = subst (λ p. SameView after (put p (view w.stored))) (sym result) written;
        })

  charge_err :
      (method : PaymentMethod) (w : World R) (old : Order) {e : Error}
      → (charge L svc method old w).0 ≡ err e
      → SameView (view (charge L svc method old w).1.stored) (view w.stored)
        × ((charge L svc method old w).1.calls
            ≡ pay_order_call (pay_request L old method) ∷ w.calls)
  unfolding charge send_pay_order
  charge_err method w old {e} h = answered (svc.payment_client w.calls sent) h
    where
      sent : ProtoPayOrderRequest
      sent = pay_request L old method

      w' : World R
      w' = record w { calls = pay_order_call sent ∷ w.calls }

      Kept : Result Order × World R → Type 0
      Kept p = SameView (view p.1.stored) (view w.stored) × (p.1.calls ≡ w'.calls)

      save : Uuid → World R → Result Order × World R
      save t = save_order L svc (paid_with t method old)

      parsed : (r : Result Uuid) → (continue r save w').0 ≡ err e → Kept (continue r save w')
      parsed (err _) h = (λ j. refl, refl)
      parsed (ok t) h = (
        save_order_err L svc view storage (paid_with t method old) w' h,
        calls-save_order L svc view storage (paid_with t method old) w',
      )

      next : String → World R → Result Order × World R
      next text u = continue (parse_transaction L text) save u

      answered : (r : Result String) → (continue r next w').0 ≡ err e → Kept (continue r next w')
      answered (err _) h = (λ j. refl, refl)
      answered (ok text) h = parsed (parse_transaction L text) h

  -- Over a storage in which every order has the id that it is stored under: if PayOrder returns an
  -- order, then the order was stored and pending, the payment service was asked once, for this
  -- order with the method given, and answered with a text that parses to the transaction id; the
  -- order returned is the stored one marked as paid by that transaction and method, and putting it
  -- in its place is the only change in the storage.
  pub pay_order_ok :
      (id : Uuid) (method : PaymentMethod) (w : World R) {o : Order}
      → IsKeyed (view w.stored)
      → (pay_order L svc id method w).0 ≡ ok o
      → Paid L svc view id method w (pay_order L svc id method w).1 o
  unfolding pay_order
  pay_order_ok id method w {o} keyed h =
      elim (with_pending-cases L svc view storage id (charge L svc method) w) [
        | inl (e, failed) ↦ cc (failed, h)
        | inr (old, found, pending, runs) ↦
            subst (λ p. Paid L svc view id method w p.1 o) (sym runs)
              (charge_ok id method w old keyed found pending (ap (λ p. p.0) (sym runs) ∙ h))
      ]

  -- Over a storage: if PayOrder returns an error, no stored order changed; either no call was sent,
  -- or the order was stored and pending and one call of the payment service was sent, for it and
  -- the method given.
  pub pay_order_err :
      (id : Uuid) (method : PaymentMethod) (w : World R) {e : Error}
      → (pay_order L svc id method w).0 ≡ err e
      → Unpaid L view id method w (pay_order L svc id method w).1
  unfolding pay_order
  pay_order_err id method w h =
      elim (with_pending-cases L svc view storage id (charge L svc method) w) [
        | inl (e, failed) ↦
            subst (λ p. Unpaid L view id method w p.1) (sym failed)
              (record { unchanged = λ j. refl; asked = inl refl })
        | inr (old, found, pending, runs) ↦
            let (same, sent) = charge_err method w old (ap (λ p. p.0) (sym runs) ∙ h) in
            subst (λ p. Unpaid L view id method w p.1) (sym runs)
              (record { unchanged = same; asked = inr (old, found, pending, sent) })
      ]
