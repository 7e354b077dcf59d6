-- ===== src/Order/Service/Saving.antt =====
-- What saving and reading an order do to the stored orders, over any storage.
use ms_ex.Prelude.{◌≡◌, refl, sym, ap, ◌∙◌, ◌⊎◌, inl, inr, some, arith, str_eq_iff}
use ms_ex.Errors.{Error, Result, ok, err}
use ms_ex.External.{Uuid, Libs}
use ms_ex.Action.{Action, continue}
use ms_ex.Order.Data.{Order, status_pending_payment}
use ms_ex.Order.Repository.{View, put, Fits, IsStorage}
use ms_ex.Order.Service.{
  World, Service, save_order, get_order, with_pending, require_pending, get_error, mapped_get,
}

-- Each stored order has the id that it is stored under.
abbrev pub IsKeyed : View → Type 0
IsKeyed v = (id : Uuid) (o : Order) → v id ≡ some o → o.order_uuid ≡ id

-- Two views show the same orders.
abbrev pub SameView : View → View → Type 0
SameView v u = (id : Uuid) → v id ≡ u id

pub require_pending_ok :
    (L : Libs) (id : Uuid) (order : Order) {o : Order}
    → require_pending L id order ≡ ok o
    → (order.status ≡ status_pending_payment) × (o ≡ order)
unfolding require_pending
require_pending_ok L id order h = ground (arith, str_eq_iff order.status status_pending_payment)

module _ {R : Type 0} (L : Libs) (svc : Service R) (view : R → View)
    (storage : IsStorage svc.repo svc.tr_manager view) where
  pub save_order_ok :
      (o : Order) (w : World R) {o' : Order}
      → (save_order L svc o w).0 ≡ ok o'
      → Fits o (view w.stored o.order_uuid)
      → (o' ≡ o) × SameView (view (save_order L svc o w).1.stored) (put o (view w.stored))
  unfolding save_order
  save_order_ok o w h fits = (ground arith, λ id. storage.save_ok o w.stored (ground arith) fits id)

  pub save_order_err :
      (o : Order) (w : World R) {e : Error}
      → (save_order L svc o w).0 ≡ err e
      → SameView (view (save_order L svc o w).1.stored) (view w.stored)
  unfolding save_order
  save_order_err o w {e} h id = storage.save_err o w.stored e (ground arith) id

  pub calls-save_order : (o : Order) (w : World R) → (save_order L svc o w).1.calls ≡ w.calls
  unfolding save_order
  calls-save_order o w = refl

  pub get_order_ok :
      (id : Uuid) (w : World R) {o : Order}
      → (get_order L svc id w).0 ≡ ok o
      → view w.stored id ≡ some o
  unfolding get_order
  get_order_ok id w {o} h = storage.get_ok id w.stored o (ground arith)

  -- The order is pending and the rest runs on it, or an error comes back and nothing has changed.
  pub with_pending-cases :
      (id : Uuid) (next : Order → Action (World R) Order) (w : World R)
      → ((e : Error) × (with_pending L svc id next w ≡ (err e, w)))
        ⊎ ((old : Order) × (view w.stored id ≡ some old)
            × (old.status ≡ status_pending_payment)
            × (with_pending L svc id next w ≡ next old w))
  unfolding with_pending get_order
  with_pending-cases id next w = from (svc.repo.get id w.stored) refl
    where
      begin : Result Order → Result Order × World R
      begin r = continue (mapped_get L id r) (λ o. continue (require_pending L id o) next) w

      guarded :
          (old : Order)
          → svc.repo.get id w.stored ≡ ok old
          → (r : Result Order) → require_pending L id old ≡ r
          → ((e : Error) × (continue r next w ≡ (err e, w)))
            ⊎ ((o : Order) × (view w.stored id ≡ some o)
                × (o.status ≡ status_pending_payment)
                × (continue r next w ≡ next o w))
      guarded old got (err e) guard = inl (e, refl)
      guarded old got (ok o) guard =
          let (pending, same) = require_pending_ok L id old guard in
          inr (
            o,
            storage.get_ok id w.stored old got ∙ sym (ap some same),
            ap (λ (x : Order). x.status) same ∙ pending,
            refl,
          )

      from :
          (r : Result Order)
          → svc.repo.get id w.stored ≡ r
          → ((e : Error) × (begin r ≡ (err e, w)))
            ⊎ ((old : Order) × (view w.stored id ≡ some old)
                × (old.status ≡ status_pending_payment)
                × (begin r ≡ next old w))
      from (err e) got = inl (get_error L id e, refl)
      from (ok old) got = guarded old got (require_pending L id old) refl
