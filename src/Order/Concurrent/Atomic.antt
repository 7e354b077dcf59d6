-- ===== src/Order/Concurrent/Atomic.antt =====
-- Overlapping requests (order/pkg/service/service.go) as atomic operations on the stored orders.
use ms_ex.Prelude.{
  ℕ, ◌≡◌, refl, sym, ap, subst, ◌∙◌, none, some, inl, inr, arith, ◌==◌, ==_iff, Bool-cases,
  str_eq_iff,
}
use ms_ex.Errors.{Result, ok, err}
use ms_ex.External.{Uuid, Time, Libs}
use ms_ex.Order.Data.{Order, status_pending_payment, status_paid}
use ms_ex.Order.Repository.{View, put, Fits, IsStorage}
use ms_ex.Order.Service.{
  World, Service, new_order, paid_with, cancelled, save_order, get_order, send_list_parts,
  send_pay_order,
}
use ms_ex.Order.Service.Saving.{SameView, save_order_ok, save_order_err}
use ms_ex.Order.Service.Life.{
  IsWellFormed, open_order, paid_order, cancelled_order, IsSound, Terms, terms, Change,
  none_changed, one_added, one_paid, one_cancelled,
}
use ms_ex.Order.Concurrent.{
  Request, creating, storing, getting, paying, charging, cancelling, saving, finished, advance,
  System, Turn, take_turn,
}
use ms_ex.Order.Concurrent.Ready.{IsReady, Draws}
use ms_ex.Order.Concurrent.Sound.{IsConsistent}
use ms_ex.Order.Concurrent.Effects.{HoldsOpen}
use ms_ex.Order.Concurrent.Exclusive.{ExclusiveTurns, here, next, IsFaithful, turn-IsFaithful}

-- One atomic operation after another.
pub data Changes (v : View) : View → Type 0 where
  none_yet : Changes v v
  then : {u u' : View} → Changes v u → Change u u' → Changes v u'

-- An order is its terms, its status and its payment.
same_order :
    (a b : Order)
    → terms a ≡ terms b
    → a.transaction_uuid ≡ b.transaction_uuid
    → a.payment_method ≡ b.payment_method
    → a.status ≡ b.status
    → a ≡ b
same_order a b t transaction method status = λ i. record {
  order_uuid = (t i).uuid;
  hull_uuid = (t i).hull;
  engine_uuid = (t i).engine;
  shield_uuid = (t i).shield;
  weapon_uuid = (t i).weapon;
  total_price = (t i).price;
  transaction_uuid = transaction i;
  payment_method = method i;
  status = status i;
  created_at = (t i).created;
}

-- A pending order has no payment.
unpaid :
    (o : Order)
    → IsWellFormed o
    → o.status ≡ status_pending_payment
    → (o.transaction_uuid ≡ none) × (o.payment_method ≡ none)
unpaid o (open_order s t m) h = (t, m)
unpaid o (paid_order _ _ s t m) h =
    absurd (grind (arith, str_eq_iff status_paid status_pending_payment))
unpaid o (cancelled_order s t m) h = (t, m)

-- The order that replaces a pending one of the same terms is that one, or it paid or cancelled.
replaces-Change :
    (v u : View) (old o : Order)
    → IsSound v
    → v o.order_uuid ≡ some old
    → terms o ≡ terms old
    → old.status ≡ status_pending_payment
    → IsWellFormed o
    → SameView u (put o v)
    → Change v u
unfolding paid_with cancelled
replaces-Change v u old o sound found t pending (open_order s tr m) same =
    let (tr', m') = unpaid old (sound.well_formed o.order_uuid old found) pending in
    let e : o ≡ old = same_order o old t (tr ∙ sym tr') (m ∙ sym m') (s ∙ sym pending) in
    none_changed (λ id. same id ∙ elim (Bool-cases (o.order_uuid == id)) [
      | inr miss ↦ rw miss refl
      | inl hit ↦ rw hit (ap some e ∙ sym found ∙ ap v ((==_iff o.order_uuid id).0 hit))
    ])
replaces-Change v u old o sound found t pending (paid_order tr m s e e') same =
    one_paid o.order_uuid old tr m found pending
      (subst (λ x. SameView u (put x v)) (same_order o (paid_with tr m old) t e e' s) same)
replaces-Change v u old o sound found t pending (cancelled_order s tr m) same =
    let (tr', m') = unpaid old (sound.well_formed o.order_uuid old found) pending in
    one_cancelled o.order_uuid old found pending (
      subst (λ x. SameView u (put x v))
        (same_order o (cancelled old) t (tr ∙ sym tr') (m ∙ sym m') s) same)

module _ {R : Type 0} (L : Libs) (svc : Service R) (view : R → View)
    (storage : IsStorage svc.repo svc.tr_manager view) where
  -- Saving an order, given what it comes to if it succeeds.
  save-Change :
      (o : Order) (w : World R)
      → Fits o (view w.stored o.order_uuid)
      → ((u : View) → SameView u (put o (view w.stored)) → Change (view w.stored) u)
      → Change (view w.stored) (view (save_order L svc o w).1.stored)
  save-Change o w fits comes_to = from (save_order L svc o w).0 refl
    where
      from :
          (r : Result Order)
          → (save_order L svc o w).0 ≡ r
          → Change (view w.stored) (view (save_order L svc o w).1.stored)
      from (err e) failed = none_changed (save_order_err L svc view storage o w failed)
      from (ok o') done = comes_to _ (save_order_ok L svc view storage o w done fits).1

  advance-Change :
      (drawn : Uuid) (now : Time) (r : Request) (w : World R)
      → IsSound (view w.stored)
      → IsReady (view w.stored) r
      → HoldsOpen (view w.stored) r
      → Draws (view w.stored) drawn r
      → Change (view w.stored) (view (advance L svc drawn now r w).1.stored)
  unfolding advance get_order send_list_parts send_pay_order
  advance-Change drawn now (finished r) w sound ready held fresh = none_changed (λ id. refl)
  advance-Change drawn now (saving order) w sound ((old, found, e), good) held fresh =
      let (p, stored, pending) = held order.order_uuid refl in
      let same : p ≡ old = ground (arith, stored, found) in
      save-Change order w (rw found (ap (λ (t : Terms). t.created) e)) (λ u written.
        replaces-Change (view w.stored) u old order sound found (sym e)
          (sym (ap (λ (x : Order). x.status) same) ∙ pending) good written)
  advance-Change drawn now (storing input total) w sound ready held fresh =
      save-Change (new_order drawn now input total) w (unfold new_order in rw fresh tt)
        (λ u written. one_added drawn now input total fresh written)
  advance-Change drawn now (creating input) w sound ready held fresh = none_changed (λ id. refl)
  advance-Change drawn now (getting id) w sound ready held fresh = none_changed (λ j. refl)
  advance-Change drawn now (paying id method) w sound ready held fresh = none_changed (λ j. refl)
  advance-Change drawn now (charging method order) w sound ready held fresh =
      none_changed (λ j. refl)
  advance-Change drawn now (cancelling id) w sound ready held fresh = none_changed (λ j. refl)

  turn-Change :
      (v : View) (turn : Turn) (s : System R)
      → IsFaithful view v s
      → Draws (view s.world.stored) turn.drawn (s.requests turn.who)
      → Change (view s.world.stored) (view (take_turn L svc turn s).world.stored)
  unfolding take_turn
  turn-Change v turn s f fresh =
      advance-Change turn.drawn turn.now (s.requests turn.who) s.world f.consistent.sound
        (f.consistent.ready turn.who) (f.held_open turn.who) fresh

  -- Over a storage: if what is stored is sound and agrees with what the requests hold, which is
  -- pending, then any turns of any requests in any order change the stored orders only by atomic
  -- operations, one after another: nothing, a new order under an unused id, or one stored pending
  -- order marked as paid or as cancelled. This is so as long as uuid.New gives ids that are not in
  -- use and no two requests at once hold one order, from its read to its save.
  pub ExclusiveTurns-Changes :
      {s t : System R}
      → IsConsistent view s
      → ((i : ℕ) → HoldsOpen (view s.world.stored) (s.requests i))
      → ExclusiveTurns L svc view s t
      → Changes (view s.world.stored) (view t.world.stored)
  ExclusiveTurns-Changes {s} c held_open turns = (both turns).1
    where
      both :
          {t : System R}
          → ExclusiveTurns L svc view s t
          → IsFaithful view (view s.world.stored) t
            × Changes (view s.world.stored) (view t.world.stored)
      both here = (record { consistent = c; held_open = held_open; final = λ j p h q. h }, none_yet)
      both (next {t} turn before fresh exclusive e) =
          let (f, changes) = both before in
          rw e (
            turn-IsFaithful L svc view storage (view s.world.stored) turn t f fresh exclusive,
            then changes (turn-Change (view s.world.stored) turn t f fresh),
          )
