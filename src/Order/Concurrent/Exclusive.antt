-- ===== src/Order/Concurrent/Exclusive.antt =====
-- What overlapping requests (order/pkg/service/service.go) keep of paid and cancelled orders, if no two
-- of them hold one order between its read and its save.
use ms_ex.Prelude.{ℕ, ◌≡◌, ◌≢◌, some, inl, inr, ◌==◌, ==_iff, Bool-cases}
use ms_ex.External.{Uuid, Libs}
use ms_ex.Order.Data.{Order, status_pending_payment}
use ms_ex.Order.Repository.{View, IsStorage}
use ms_ex.Order.Service.{Service}
use ms_ex.Order.Concurrent.{System, Turn, take_turn}
use ms_ex.Order.Concurrent.Ready.{Draws}
use ms_ex.Order.Concurrent.Sound.{IsConsistent, turn_keeps}
use ms_ex.Order.Concurrent.Effects.{
  holds, HoldsOpen, Effect-IsOpen, Effect-final, advance-Effect, advance-HoldsOpen,
}

-- No two requests hold one order.
abbrev pub IsExclusive : {R : Type 0} → System R → Type 0
IsExclusive s =
    (i j : ℕ) (id : Uuid) → holds (s.requests i) ≡ some id → holds (s.requests j) ≡ some id → i ≡ j

-- Any turns of any requests, where no two requests ever hold one order.
pub data ExclusiveTurns {R : Type 0} (L : Libs) (svc : Service R) (view : R → View) (s : System R)
    : System R → Type 0 where
  here : ExclusiveTurns L svc view s s
  next :
      {t u : System R} (turn : Turn)
      → ExclusiveTurns L svc view s t
      → Draws (view t.world.stored) turn.drawn (t.requests turn.who)
      → IsExclusive t
      → u ≡ take_turn L svc turn t
      → ExclusiveTurns L svc view s u

-- What the requests hold is pending as stored, and the orders of `v` that are not pending are as
-- they were.
pub record IsFaithful {R : Type 0} (view : R → View) (v : View) (s : System R) : Type 0 where
  pub consistent : IsConsistent view s
  pub held_open : (i : ℕ) → HoldsOpen (view s.world.stored) (s.requests i)
  pub final :
      (id : Uuid) (o : Order)
      → v id ≡ some o
      → o.status ≢ status_pending_payment
      → view s.world.stored id ≡ some o

module _ {R : Type 0} (L : Libs) (svc : Service R) (view : R → View)
    (storage : IsStorage svc.repo svc.tr_manager view) where
  pub turn-IsFaithful :
      (v : View) (turn : Turn) (s : System R)
      → IsFaithful view v s
      → Draws (view s.world.stored) turn.drawn (s.requests turn.who)
      → IsExclusive s
      → IsFaithful view v (take_turn L svc turn s)
  unfolding take_turn
  turn-IsFaithful v turn s f fresh exclusive =
      let r = s.requests turn.who in
      let effect =
        advance-Effect L svc view storage turn.drawn turn.now r s.world
          (f.consistent.ready turn.who) fresh in
      record {
        consistent = (turn_keeps L svc view storage turn s f.consistent fresh).0;
        held_open = λ i. elim (Bool-cases (turn.who == i)) [
          | inl own ↦ rw own (
              advance-HoldsOpen L svc view storage turn.drawn turn.now r s.world f.consistent.sound
                (f.held_open turn.who))
          | inr other ↦ rw other (λ id held.
              Effect-IsOpen (view s.world.stored) _ r id effect
                (λ mine. cc ((==_iff turn.who i).1 (exclusive turn.who i id mine held), other))
                (f.held_open i id held))
        ];
        final = λ id o stored paid.
            Effect-final (view s.world.stored) _ r id o effect (f.held_open turn.who)
              (f.final id o stored paid) paid;
      }

  -- Over a storage: if what is stored is sound and agrees with what the requests hold, which is
  -- pending, then a stored order that is not pending is still stored and the same after any turns
  -- of any requests in any order, as long as uuid.New gives ids that are not in use and no two
  -- requests at once hold one order, from its read to its save.
  pub ExclusiveTurns-final :
      {s t : System R} (id : Uuid) (o : Order)
      → IsConsistent view s
      → ((i : ℕ) → HoldsOpen (view s.world.stored) (s.requests i))
      → ExclusiveTurns L svc view s t
      → view s.world.stored id ≡ some o
      → o.status ≢ status_pending_payment
      → view t.world.stored id ≡ some o
  ExclusiveTurns-final {s} id o c held_open turns stored paid =
      (faithful turns).final id o stored paid
    where
      faithful :
          {t : System R} → ExclusiveTurns L svc view s t → IsFaithful view (view s.world.stored) t
      faithful here = record { consistent = c; held_open = held_open; final = λ j p h q. h }
      faithful (next {t} turn before fresh exclusive e) =
          rw e (turn-IsFaithful (view s.world.stored) turn t (faithful before) fresh exclusive)
