-- ===== src/Order/Service/Trace.antt =====
-- Sequences of operations of the service, one after another, and what they preserve.
use ms_ex.Prelude.{◌≡◌, ◌≢◌, refl, sym, ap, subst, ◌∙◌, none, some, inl, inr, ◌⊎◌}
use ms_ex.Errors.{Error, Result, ok, err}
use ms_ex.External.{Uuid, Time, Libs}
use ms_ex.Order.Data.{Order, PaymentMethod, status_pending_payment}
use ms_ex.Order.Repository.{View, put, IsStorage}
use ms_ex.Order.Service.{
  World, Service, CreateOrderInput, create_order, get_order, pay_order, cancel_order,
}
use ms_ex.Order.Service.Saving.{IsKeyed, SameView}
use ms_ex.Order.Service.Creating.{create_order_ok, create_order_err}
use ms_ex.Order.Service.Paying.{pay_order_ok, pay_order_err}
use ms_ex.Order.Service.Cancelling.{cancel_order_ok, cancel_order_err}
use ms_ex.Order.Service.Life.{
  IsSound, Follows, Change, none_changed, one_added, one_paid, one_cancelled, Change-IsSound,
  Change-Follows, Follows-final, terms, terms-Follows,
}

-- One operation, successful or not; a new order has an id that is not in use. Between operations the
-- storage may do anything that leaves the stored orders as they are.
pub data Step {R : Type 0} (L : Libs) (svc : Service R) (view : R → View) (w w' : World R)
    : Type 0 where
  creates :
      (id : Uuid) (now : Time) (input : CreateOrderInput)
      → view w.stored id ≡ none
      → w' ≡ (create_order L svc id now input w).1
      → Step L svc view w w'
  gets : (id : Uuid) → w' ≡ (get_order L svc id w).1 → Step L svc view w w'
  pays_for :
      (id : Uuid) (method : PaymentMethod)
      → w' ≡ (pay_order L svc id method w).1
      → Step L svc view w w'
  withdraws : (id : Uuid) → w' ≡ (cancel_order L svc id w).1 → Step L svc view w w'
  rests : SameView (view w'.stored) (view w.stored) → Step L svc view w w'

pub data Reach {R : Type 0} (L : Libs) (svc : Service R) (view : R → View) (w : World R)
    : World R → Type 0 where
  here : Reach L svc view w w
  next : {u v : World R} → Reach L svc view w u → Step L svc view u v → Reach L svc view w v

Result-cases : {A : Type 0} (r : Result A) → ((a : A) × (r ≡ ok a)) ⊎ ((e : Error) × (r ≡ err e))
Result-cases (ok a) = inl (a, refl)
Result-cases (err e) = inr (e, refl)

module _ {R : Type 0} (L : Libs) (svc : Service R) (view : R → View)
    (storage : IsStorage svc.repo svc.tr_manager view) where
  same_as :
      (w : World R) {w' w'' : World R}
      → w' ≡ w''
      → Change (view w.stored) (view w''.stored)
      → Change (view w.stored) (view w'.stored)
  same_as w e c = subst (λ x. Change (view w.stored) (view x.stored)) (sym e) c

  Step-Change :
      {w w' : World R}
      → IsKeyed (view w.stored)
      → Step L svc view w w'
      → Change (view w.stored) (view w'.stored)
  Step-Change {w} keyed (creates id now input fresh e) =
      same_as w e (elim (Result-cases (create_order L svc id now input w).0) [
        | inr (x, failed) ↦ none_changed (create_order_err L svc view storage id now input w failed)
        | inl (o, done) ↦
            let c = create_order_ok L svc view storage id now input w fresh done in
            one_added id now input _ fresh (
              subst
                (λ p.
                  SameView (view (create_order L svc id now input w).1.stored)
                    (put p (view w.stored)))
                c.result c.written)
      ])
  Step-Change {w} keyed (gets id e) = same_as w e (none_changed (unfold get_order in λ j. refl))
  Step-Change {w} keyed (pays_for id method e) =
      same_as w e (elim (Result-cases (pay_order L svc id method w).0) [
        | inr (x, failed) ↦
            none_changed (pay_order_err L svc view storage id method w failed).unchanged
        | inl (o, done) ↦
            let p = pay_order_ok L svc view storage id method w keyed done in
            one_paid id p.old p.transaction method p.found p.pending (
              subst
                (λ x.
                  SameView (view (pay_order L svc id method w).1.stored) (put x (view w.stored)))
                p.result p.written)
      ])
  Step-Change {w} keyed (withdraws id e) =
      same_as w e (elim (Result-cases (cancel_order L svc id w).0) [
        | inr (x, failed) ↦ none_changed (cancel_order_err L svc view storage id w failed).0
        | inl (o, done) ↦
            let c = cancel_order_ok L svc view storage id w keyed done in
            one_cancelled id c.old c.found c.pending (
              subst
                (λ x. SameView (view (cancel_order L svc id w).1.stored) (put x (view w.stored)))
                c.result c.written)
      ])
  Step-Change {w} keyed (rests same) = none_changed same

  Step-IsSound :
      {w w' : World R} → IsSound (view w.stored) → Step L svc view w w' → IsSound (view w'.stored)
  Step-IsSound sound st = Change-IsSound sound (Step-Change sound.keyed st)

  -- From a sound storage, whatever operations run one after another, in whatever order and with
  -- whatever success, the storage stays sound: every order has the id that it is stored under, and
  -- is pending without a payment, paid with one, or cancelled without one. Every CreateOrder among
  -- them draws an id that no stored order has; the storage keeps its contract, and between
  -- operations does nothing to the stored orders.
  pub Reach-IsSound :
      {w w' : World R} → IsSound (view w.stored) → Reach L svc view w w' → IsSound (view w'.stored)
  Reach-IsSound sound here = sound
  Reach-IsSound sound (next r st) = Step-IsSound (Reach-IsSound sound r) st

  -- From a sound storage, one operation keeps every stored order in place, and what it becomes is
  -- itself, or, if it was pending, itself marked as paid or as cancelled.
  pub Step-Follows :
      {w w' : World R} (id : Uuid) {o : Order}
      → IsSound (view w.stored)
      → Step L svc view w w'
      → view w.stored id ≡ some o
      → (o' : Order) × (view w'.stored id ≡ some o') × Follows o o'
  Step-Follows id sound st found = Change-Follows id sound.keyed (Step-Change sound.keyed st) found

  -- From a sound storage, a stored order that is not pending is still stored and the same after any
  -- sequence of operations in which every CreateOrder draws an id that no stored order has; the
  -- storage keeps its contract, and between operations does nothing to the stored orders.
  pub Reach-final :
      {w w' : World R} (id : Uuid) {o : Order}
      → IsSound (view w.stored)
      → Reach L svc view w w'
      → view w.stored id ≡ some o
      → o.status ≢ status_pending_payment
      → view w'.stored id ≡ some o
  Reach-final id sound here found final = found
  Reach-final id sound (next r st) found final =
      let before = Reach-final id sound r found final in
      let (o', now, f) = Step-Follows id (Reach-IsSound sound r) st before in
      now ∙ ap some (Follows-final f final)

  -- From a sound storage, a stored order is still stored after any sequence of operations, and its
  -- id, its components, its price and its creation time are what they were.
  pub Reach-terms :
      {w w' : World R} (id : Uuid) {o : Order}
      → IsSound (view w.stored)
      → Reach L svc view w w'
      → view w.stored id ≡ some o
      → (o' : Order) × (view w'.stored id ≡ some o') × (terms o' ≡ terms o)
  Reach-terms id {o} sound here found = (o, found, refl)
  Reach-terms id sound (next r st) found =
      let (o₁, found₁, same₁) = Reach-terms id sound r found in
      let (o₂, found₂, f) = Step-Follows id (Reach-IsSound sound r) st found₁ in
      (o₂, found₂, terms-Follows f ∙ same₁)
