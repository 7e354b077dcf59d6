-- ===== src/Order/Concurrent/Effects.antt =====
-- What one turn of a request (order/pkg/service/service.go) does to the stored orders that it holds or
-- does not hold.
use ms_ex.Prelude.{
  ◌≡◌, ◌≢◌, refl, sym, ap, ◌∙◌, Option, none, some, inl, inr, ◌⊎◌, arith, ◌==◌, ==_iff, Bool-cases,
}
use ms_ex.Errors.{Result, ok, err, ◌>>=◌, bind-eq-ok}
use ms_ex.External.{Uuid, Time, Libs}
use ms_ex.Order.Data.{Order, status_pending_payment}
use ms_ex.Order.Repository.{View, put, Fits, IsStorage}
use ms_ex.Order.Service.{
  World, Service, new_order, require_pending, pay_request, parse_transaction, paid_with, cancelled,
  send_list_parts, send_pay_order, save_order, get_order,
}
use ms_ex.Order.Service.Saving.{
  SameView, require_pending_ok, save_order_ok, save_order_err, get_order_ok,
}
use ms_ex.Order.Service.Life.{IsSound, Terms, terms}
use ms_ex.Order.Concurrent.{
  Request, creating, storing, getting, paying, charging, cancelling, saving, finished, or_finish,
  advance,
}
use ms_ex.Order.Concurrent.Ready.{HasTerms, IsReady, Draws}

-- The order that a request has read and may still save.
abbrev pub holds : Request → Option Uuid
holds (charging method order) = some order.order_uuid
holds (saving order) = some order.order_uuid
holds _ = none

abbrev pub IsOpen : View → Uuid → Type 0
IsOpen v id = (p : Order) × (v id ≡ some p) × (p.status ≡ status_pending_payment)

-- What the request holds is pending as stored.
abbrev pub HoldsOpen : View → Request → Type 0
HoldsOpen v r = (id : Uuid) → holds r ≡ some id → IsOpen v id

some_eq : {i j : Uuid} → some i ≡ some j → i ≡ j
some_eq h = ground (arith, h)

-- What one turn of a request does to the storage.
pub data Effect (v u : View) (r : Request) : Type 0 where
  same : SameView u v → Effect v u r
  written :
      (o : Order)
      → (v o.order_uuid ≡ none) ⊎ (holds r ≡ some o.order_uuid)
      → SameView u (put o v)
      → Effect v u r

pub Effect-IsOpen :
    (v u : View) (r : Request) (id : Uuid)
    → Effect v u r
    → holds r ≢ some id
    → IsOpen v id
    → IsOpen u id
Effect-IsOpen v u r id (same e) free (p, found, pending) = (p, e id ∙ found, pending)
Effect-IsOpen v u r id (written o why e) free (p, found, pending) =
    elim (Bool-cases (o.order_uuid == id)) [
      | inr miss ↦ (p, e id ∙ rw miss found, pending)
      | inl hit ↦ absurd (clash ((==_iff o.order_uuid id).0 hit) why)
    ]
  where
    clash : o.order_uuid ≡ id → (v o.order_uuid ≡ none) ⊎ (holds r ≡ some o.order_uuid) → ⊥
    clash key (inl unused) = cc (ap v key, unused, found)
    clash key (inr held) = free (held ∙ ap some key)

pub Effect-final :
    (v u : View) (r : Request) (id : Uuid) (o : Order)
    → Effect v u r
    → HoldsOpen v r
    → v id ≡ some o
    → o.status ≢ status_pending_payment
    → u id ≡ some o
Effect-final v u r id o (same e) held_open found final = e id ∙ found
Effect-final v u r id o (written new why e) held_open found final =
    elim (Bool-cases (new.order_uuid == id)) [
      | inr miss ↦ e id ∙ rw miss found
      | inl hit ↦ absurd (clash ((==_iff new.order_uuid id).0 hit) why)
    ]
  where
    clash : new.order_uuid ≡ id → (v new.order_uuid ≡ none) ⊎ (holds r ≡ some new.order_uuid) → ⊥
    clash key (inl unused) = cc (ap v key, unused, found)
    clash key (inr held) =
        let (p, stored, pending) = held_open new.order_uuid held in
        let same_order : p ≡ o = ground (arith, ap v key, stored, found) in
        final (ap (λ (x : Order). x.status) (sym same_order) ∙ pending)

module _ {R : Type 0} (L : Libs) (svc : Service R) (view : R → View)
    (storage : IsStorage svc.repo svc.tr_manager view) where
  save-Effect :
      (r : Request) (o : Order) (w : World R)
      → (view w.stored o.order_uuid ≡ none) ⊎ (holds r ≡ some o.order_uuid)
      → Fits o (view w.stored o.order_uuid)
      → Effect (view w.stored) (view (save_order L svc o w).1.stored) r
  save-Effect r o w why fits = from (save_order L svc o w).0 refl
    where
      from :
          (q : Result Order)
          → (save_order L svc o w).0 ≡ q
          → Effect (view w.stored) (view (save_order L svc o w).1.stored) r
      from (err e) failed = same (save_order_err L svc view storage o w failed)
      from (ok o') done = written o why (save_order_ok L svc view storage o w done fits).1

  HasTerms-Fits : (v : View) (o : Order) → HasTerms v (terms o) → Fits o (v o.order_uuid)
  HasTerms-Fits v o (old, found, e) = rw found (ap (λ (t : Terms). t.created) e)

  pub advance-Effect :
      (drawn : Uuid) (now : Time) (r : Request) (w : World R)
      → IsReady (view w.stored) r
      → Draws (view w.stored) drawn r
      → Effect (view w.stored) (view (advance L svc drawn now r w).1.stored) r
  unfolding advance get_order send_list_parts send_pay_order
  advance-Effect drawn now (finished r) w ready fresh = same (λ id. refl)
  advance-Effect drawn now (saving order) w (past, good) fresh =
      save-Effect (saving order) order w (inr refl) (HasTerms-Fits (view w.stored) order past)
  advance-Effect drawn now (storing input total) w ready fresh =
      save-Effect (storing input total) (new_order drawn now input total) w
        (inl (unfold new_order in fresh)) (unfold new_order in rw fresh tt)
  advance-Effect drawn now (creating input) w ready fresh = same (λ id. refl)
  advance-Effect drawn now (getting id) w ready fresh = same (λ j. refl)
  advance-Effect drawn now (paying id method) w ready fresh = same (λ j. refl)
  advance-Effect drawn now (charging method order) w ready fresh = same (λ j. refl)
  advance-Effect drawn now (cancelling id) w ready fresh = same (λ j. refl)

  -- The order that PayOrder and CancelOrder go on with is stored and pending.
  read-IsOpen :
      (id : Uuid) (w : World R) (o : Order)
      → IsSound (view w.stored)
      → (get_order L svc id w).0 >>= require_pending L id ≡ ok o
      → IsOpen (view w.stored) o.order_uuid
  read-IsOpen id w o sound h =
      let (old, got, checked) = bind-eq-ok (get_order L svc id w).0 (require_pending L id) h in
      let (pending, e) = require_pending_ok L id old checked in
      let found = get_order_ok L svc view storage id w got in
      let key : old.order_uuid ≡ id = sound.keyed id old found in rw e (old, rw key found, pending)

  or_finish-HoldsOpen :
      {A : Type 0} (v : View) (r : Result A) (next : A → Request)
      → ((a : A) → r ≡ ok a → HoldsOpen v (next a))
      → HoldsOpen v (or_finish r next)
  or_finish-HoldsOpen v (err e) next h = λ id held. cc held
  or_finish-HoldsOpen v (ok a) next h = h a refl

  pub advance-HoldsOpen :
      (drawn : Uuid) (now : Time) (r : Request) (w : World R)
      → IsSound (view w.stored)
      → HoldsOpen (view w.stored) r
      → HoldsOpen (view (advance L svc drawn now r w).1.stored) (advance L svc drawn now r w).0
  unfolding advance get_order send_list_parts send_pay_order cancelled
  advance-HoldsOpen drawn now (finished r) w sound held_open = λ id held. cc held
  advance-HoldsOpen drawn now (saving order) w sound held_open = λ id held. cc held
  advance-HoldsOpen drawn now (storing input total) w sound held_open = λ id held. cc held
  advance-HoldsOpen drawn now (creating input) w sound held_open =
      or_finish-HoldsOpen (view w.stored) _ (storing input) (λ total e id held. cc held)
  advance-HoldsOpen drawn now (getting id) w sound held_open = λ j held. cc held
  advance-HoldsOpen drawn now (paying id method) w sound held_open =
      or_finish-HoldsOpen (view w.stored) ((get_order L svc id w).0 >>= require_pending L id)
        (charging method) (λ o e j held. rw (← some_eq held) (read-IsOpen id w o sound e))
  advance-HoldsOpen drawn now (charging method order) w sound held_open =
      or_finish-HoldsOpen (view w.stored)
        ((send_pay_order L svc (pay_request L order method) w).0 >>= parse_transaction L)
        (λ t. saving (paid_with t method order))
        (λ t e j held. held_open j (unfold paid_with in held))
  advance-HoldsOpen drawn now (cancelling id) w sound held_open =
      or_finish-HoldsOpen (view w.stored) ((get_order L svc id w).0 >>= require_pending L id)
        (λ o. saving (cancelled o)) (λ o e j held. rw (← some_eq held) (read-IsOpen id w o sound e))
