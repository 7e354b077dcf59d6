-- ===== src/Order/Concurrent/Sound.antt =====
-- What overlapping requests keep of the stored orders.
use ms_ex.Prelude.{ℕ, ◌≡◌, refl, ap, none, inl, inr, ◌⊎◌, ◌==◌, Bool-cases}
use ms_ex.Errors.{Result, ok, err, ◌>>=◌, bind-eq-ok}
use ms_ex.External.{Uuid, Time, Libs}
use ms_ex.Order.Data.{Order, status_pending_payment}
use ms_ex.Order.Repository.{View, Fits, IsStorage}
use ms_ex.Order.Service.{
  World, Service, new_order, require_pending, pay_request, pay_request, parse_transaction,
  paid_with, cancelled, send_list_parts, send_pay_order, save_order, get_order,
}
use ms_ex.Order.Service.Saving.{require_pending_ok, save_order_ok, save_order_err, get_order_ok}
use ms_ex.Order.Service.Life.{
  IsWellFormed, IsSound, Terms, terms, put-IsSound, new_order-IsWellFormed, paid_with-IsWellFormed,
  cancelled-IsWellFormed,
}
use ms_ex.Order.Concurrent.{
  Request, creating, storing, getting, paying, charging, cancelling, saving, finished, advance,
  System, Turn, take_turn,
}
use ms_ex.Order.Concurrent.Ready.{
  HasTerms, IsReady, Draws, KeepsTerms, Advanced, put-KeepsTerms, or_finish-IsReady, unchanged,
  IsReady-KeepsTerms,
}

module _ {R : Type 0} (L : Libs) (svc : Service R) (view : R → View)
    (storage : IsStorage svc.repo svc.tr_manager view) where
  pending_read :
      (id : Uuid) (w : World R) (o : Order)
      → IsSound (view w.stored)
      → (svc_get : (get_order L svc id w).0 >>= require_pending L id ≡ ok o)
      → HasTerms (view w.stored) (terms o) × IsWellFormed o × (o.status ≡ status_pending_payment)
  pending_read id w o sound h =
      let (old, got, checked) = bind-eq-ok (get_order L svc id w).0 (require_pending L id) h in
      let (pending, same) = require_pending_ok L id old checked in
      let found = get_order_ok L svc view storage id w got in
      let key : old.order_uuid ≡ id = sound.keyed id old found in
      rw same ((old, rw key found, refl), sound.well_formed id old found, pending)

  saved :
      (o : Order) (w : World R)
      → IsSound (view w.stored)
      → IsWellFormed o
      → (view w.stored o.order_uuid ≡ none) ⊎ HasTerms (view w.stored) (terms o)
      → Advanced
          (view w.stored)
          (view (save_order L svc o w).1.stored)
          (finished (save_order L svc o w).0)
  saved o w sound good before = from (save_order L svc o w).0 refl
    where
      fits : Fits o (view w.stored o.order_uuid)
      fits = elim before [
        | inl unused ↦ rw unused tt
        | inr (o', found, e) ↦ rw found (ap (λ (t : Terms). t.created) e)
      ]

      from :
          (r : Result Order)
          → (save_order L svc o w).0 ≡ r
          → Advanced
              (view w.stored)
              (view (save_order L svc o w).1.stored)
              (finished (save_order L svc o w).0)
      from (err e) failed =
          unchanged (view w.stored) (view (save_order L svc o w).1.stored)
            (finished (save_order L svc o w).0) sound (save_order_err L svc view storage o w failed)
            tt
      from (ok o') done =
          let (result, written) = save_order_ok L svc view storage o w done fits in
          record {
            sound = put-IsSound o sound good written;
            keeps =
                put-KeepsTerms o (view w.stored) (view (save_order L svc o w).1.stored) before
                  written;
            ready = tt;
          }

  cancelled-IsReady :
      (v : View) (o : Order)
      → HasTerms v (terms o) × IsWellFormed o × (o.status ≡ status_pending_payment)
      → IsReady v (saving (cancelled o))
  unfolding cancelled
  cancelled-IsReady v o (past, good, pending) = (past, cancelled-IsWellFormed o good pending)

  advance-Advanced :
      (drawn : Uuid) (now : Time) (r : Request) (w : World R)
      → IsSound (view w.stored)
      → IsReady (view w.stored) r
      → Draws (view w.stored) drawn r
      → Advanced
          (view w.stored)
          (view (advance L svc drawn now r w).1.stored)
          (advance L svc drawn now r w).0
  unfolding advance get_order send_list_parts send_pay_order
  advance-Advanced drawn now (finished r) w sound ready fresh =
      unchanged (view w.stored) (view w.stored) (finished r) sound (λ id. refl) tt
  advance-Advanced drawn now (saving order) w sound (past, good) fresh =
      saved order w sound good (inr past)
  advance-Advanced drawn now (storing input total) w sound ready fresh =
      saved (new_order drawn now input total) w sound (new_order-IsWellFormed drawn now input total)
        (inl (unfold new_order in fresh))
  advance-Advanced drawn now (creating input) w sound ready fresh =
      unchanged (view w.stored) (view w.stored) _ sound (λ id. refl)
        (or_finish-IsReady (view w.stored) _ (storing input) (λ total e. tt))
  advance-Advanced drawn now (getting id) w sound ready fresh =
      unchanged (view w.stored) (view w.stored) (finished (get_order L svc id w).0) sound
        (λ j. refl) tt
  advance-Advanced drawn now (paying id method) w sound ready fresh =
      unchanged (view w.stored) (view w.stored) _ sound (λ j. refl)
        (or_finish-IsReady (view w.stored) ((get_order L svc id w).0 >>= require_pending L id)
          (charging method) (λ o e. pending_read id w o sound e))
  advance-Advanced drawn now (charging method order) w sound ready fresh =
      unchanged (view w.stored) (view w.stored) _ sound (λ j. refl)
        (or_finish-IsReady (view w.stored)
          ((send_pay_order L svc (pay_request L order method) w).0 >>= parse_transaction L)
          (λ t. saving (paid_with t method order))
          (λ t e. (unfold paid_with in ready.0, paid_with-IsWellFormed t method order)))
  advance-Advanced drawn now (cancelling id) w sound ready fresh =
      unchanged (view w.stored) (view w.stored) _ sound (λ j. refl)
        (or_finish-IsReady (view w.stored) ((get_order L svc id w).0 >>= require_pending L id)
          (λ o. saving (cancelled o))
          (λ o e. cancelled-IsReady (view w.stored) o (pending_read id w o sound e)))

-- The service between two turns: the storage is sound, and so is what the requests hold.
pub record IsConsistent {R : Type 0} (view : R → View) (s : System R) : Type 0 where
  pub sound : IsSound (view s.world.stored)
  pub ready : (i : ℕ) → IsReady (view s.world.stored) (s.requests i)

-- Any turns, one after another, of any requests.
pub data Turns {R : Type 0} (L : Libs) (svc : Service R) (view : R → View) (s : System R)
    : System R → Type 0 where
  here : Turns L svc view s s
  next :
      {t u : System R} (turn : Turn)
      → Turns L svc view s t
      → Draws (view t.world.stored) turn.drawn (t.requests turn.who)
      → u ≡ take_turn L svc turn t
      → Turns L svc view s u

module _ {R : Type 0} (L : Libs) (svc : Service R) (view : R → View)
    (storage : IsStorage svc.repo svc.tr_manager view) where
  pub turn_keeps :
      (turn : Turn) (s : System R)
      → IsConsistent view s
      → Draws (view s.world.stored) turn.drawn (s.requests turn.who)
      → IsConsistent view (take_turn L svc turn s)
        × KeepsTerms (view s.world.stored) (view (take_turn L svc turn s).world.stored)
  unfolding take_turn
  turn_keeps turn s c fresh =
      let a =
        advance-Advanced L svc view storage turn.drawn turn.now (s.requests turn.who) s.world
          c.sound (c.ready turn.who) fresh in
      (
        record {
          sound = a.sound;
          ready = λ i. elim (Bool-cases (turn.who == i)) [
            | inl own ↦ rw own a.ready
            | inr other ↦
                rw other
                  (IsReady-KeepsTerms (view s.world.stored) _ (s.requests i) a.keeps (c.ready i))
          ];
        },
        a.keeps,
      )

  -- Over a storage: if what is stored is sound and what the requests hold agrees with it, then it
  -- stays so after any turns of any requests in any order, as long as uuid.New gives ids that are
  -- not in use; no stored order is lost, and its id, its components, its price and its creation
  -- time are what they were.
  pub Turns-IsConsistent :
      {s t : System R}
      → IsConsistent view s
      → Turns L svc view s t
      → IsConsistent view t × KeepsTerms (view s.world.stored) (view t.world.stored)
  Turns-IsConsistent c here = (c, λ t h. h)
  Turns-IsConsistent c (next {t} turn before fresh e) =
      let (c', keeps) = Turns-IsConsistent c before in
      let (c'', keeps') = turn_keeps turn t c' fresh in rw e (c'', λ t h. keeps' t (keeps t h))
