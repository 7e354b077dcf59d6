-- ===== src/Order/Service/Cancelling.antt =====
-- CancelOrder of order/pkg/service/service.go, over any storage, and what holds of PayOrder and
-- CancelOrder alike on orders that are final.
use ms_ex.Prelude.{◌≡◌, ◌≢◌, refl, sym, ap, subst, ◌∙◌, some, inl, inr}
use ms_ex.Errors.{Error, Result, ok, err}
use ms_ex.External.{Uuid, Libs}
use ms_ex.Action.{Action}
use ms_ex.Order.Data.{Order, PaymentMethod, status_pending_payment}
use ms_ex.Order.Repository.{View, put, Fits, IsStorage}
use ms_ex.Order.Service.{
  World, Service, cancelled, save_order, with_pending, pay_order, cancel_order,
}
use ms_ex.Order.Service.Saving.{
  IsKeyed, SameView, save_order_ok, save_order_err, calls-save_order, with_pending-cases,
}

-- What a cancellation that succeeded did.
pub record Cancelled {R : Type 0} (view : R → View) (id : Uuid) (w w' : World R) (o : Order)
    : Type 0 where
  pub old : Order
  pub found : view w.stored id ≡ some old
  pub pending : old.status ≡ status_pending_payment
  pub result : o ≡ cancelled old
  pub sent : w'.calls ≡ w.calls
  pub written : SameView (view w'.stored) (put o (view w.stored))

module _ {R : Type 0} (L : Libs) (svc : Service R) (view : R → View)
    (storage : IsStorage svc.repo svc.tr_manager view) where
  cancelled_after :
      (id : Uuid) (w : World R) (old : Order) {o : Order}
      → IsKeyed (view w.stored)
      → view w.stored id ≡ some old
      → old.status ≡ status_pending_payment
      → (save_order L svc (cancelled old) w).0 ≡ ok o
      → Cancelled view id w (save_order L svc (cancelled old) w).1 o
  cancelled_after id w old {o} keyed found pending h =
      let same_key = keyed id old found in
      let fits : Fits (cancelled old) (view w.stored (cancelled old).order_uuid) =
        unfold cancelled in
        subst (Fits (cancelled old)) (sym (ap (view w.stored) same_key ∙ found)) refl in
      let (result, written) = save_order_ok L svc view storage (cancelled old) w h fits in
      let after : View = view (save_order L svc (cancelled old) w).1.stored in
      record {
        old = old;
        found = found;
        pending = pending;
        result = result;
        sent = calls-save_order L svc view storage (cancelled old) w;
        written = subst (λ p. SameView after (put p (view w.stored))) (sym result) written;
      }

  -- Over a storage in which every order has the id that it is stored under: if CancelOrder returns
  -- an order, then the order was stored and pending, no other service was called, and the order
  -- returned is the stored one marked as cancelled, and putting it in its place is the only change
  -- in the storage.
  pub cancel_order_ok :
      (id : Uuid) (w : World R) {o : Order}
      → IsKeyed (view w.stored)
      → (cancel_order L svc id w).0 ≡ ok o
      → Cancelled view id w (cancel_order L svc id w).1 o
  unfolding cancel_order
  cancel_order_ok id w {o} keyed h =
      elim (with_pending-cases L svc view storage id (λ order. save_order L svc (cancelled order))
        w) [
          | inl (e, failed) ↦ cc (failed, h)
          | inr (old, found, pending, runs) ↦
              subst (λ p. Cancelled view id w p.1 o) (sym runs)
                (cancelled_after id w old keyed found pending (ap (λ p. p.0) (sym runs) ∙ h))
        ]

  -- Over a storage: if CancelOrder returns an error, no stored order changed and no other service
  -- was called.
  pub cancel_order_err :
      (id : Uuid) (w : World R) {e : Error}
      → (cancel_order L svc id w).0 ≡ err e
      → SameView (view (cancel_order L svc id w).1.stored) (view w.stored)
        × ((cancel_order L svc id w).1.calls ≡ w.calls)
  unfolding cancel_order
  cancel_order_err id w {e} h =
      elim (with_pending-cases L svc view storage id (λ order. save_order L svc (cancelled order))
        w) [
          | inl (e, failed) ↦ subst Kept (sym failed) (λ j. refl, refl)
          | inr (old, found, pending, runs) ↦ subst Kept (sym runs) (
            save_order_err L svc view storage (cancelled old) w (ap (λ p. p.0) (sym runs) ∙ h),
            calls-save_order L svc view storage (cancelled old) w,
          )
        ]
    where
      Kept : Result Order × World R → Type 0
      Kept p = SameView (view p.1.stored) (view w.stored) × (p.1.calls ≡ w.calls)

  final_refused :
      (id : Uuid) (next : Order → Action (World R) Order) (w : World R) {o : Order}
      → view w.stored id ≡ some o
      → o.status ≢ status_pending_payment
      → (e : Error) × (with_pending L svc id next w ≡ (err e, w))
  final_refused id next w found final = elim (with_pending-cases L svc view storage id next w) [
    | inl refused ↦ refused
    | inr (old, found', pending, runs) ↦ absurd (final (cc (found, found', pending)))
  ]

  -- Over a storage, for a stored order that is not pending: PayOrder and CancelOrder both return an
  -- error and leave the stored orders and the record of calls as they were.
  pub final_refused_both :
      (id : Uuid) (method : PaymentMethod) (w : World R) {o : Order}
      → view w.stored id ≡ some o
      → o.status ≢ status_pending_payment
      → ((e : Error) × (pay_order L svc id method w ≡ (err e, w)))
        × ((e : Error) × (cancel_order L svc id w ≡ (err e, w)))
  unfolding pay_order cancel_order
  final_refused_both id method w found final =
      (final_refused id _ w found final, final_refused id _ w found final)
