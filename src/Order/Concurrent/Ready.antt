-- ===== src/Order/Concurrent/Ready.antt =====
-- What the orders that requests hold (order/pkg/service/service.go) have to do with those that are
-- stored.
use ms_ex.Prelude.{
  ◌≡◌, refl, sym, ap, ◌∙◌, none, some, inl, inr, ◌⊎◌, arith, ◌==◌, ==_iff, Bool-cases,
}
use ms_ex.Errors.{Result, ok, err}
use ms_ex.External.{Uuid}
use ms_ex.Order.Data.{Order, status_pending_payment}
use ms_ex.Order.Repository.{View, put}
use ms_ex.Order.Service.Saving.{SameView}
use ms_ex.Order.Service.Life.{IsWellFormed, IsSound, Terms, terms, SameView-IsSound}
use ms_ex.Order.Concurrent.{
  Request, creating, storing, getting, paying, charging, cancelling, saving, finished, or_finish,
}

-- An order with these terms is stored.
abbrev pub HasTerms : View → Terms → Type 0
HasTerms v t = (o : Order) × (v t.uuid ≡ some o) × (terms o ≡ t)

-- What the orders that a request has read and changed have to do with those that are stored.
abbrev pub IsReady : View → Request → Type 0
IsReady v (charging method order) =
    HasTerms v (terms order) × IsWellFormed order × (order.status ≡ status_pending_payment)
IsReady v (saving order) = HasTerms v (terms order) × IsWellFormed order
IsReady v _ = Unit

-- uuid.New gives an id that is not in use.
abbrev pub Draws : View → Uuid → Request → Type 0
Draws v drawn (storing input total) = v drawn ≡ none
Draws v drawn _ = Unit

-- Nothing is lost, and the terms of what was stored stay.
abbrev pub KeepsTerms : View → View → Type 0
KeepsTerms v u = (t : Terms) → HasTerms v t → HasTerms u t

SameView-KeepsTerms : (v u : View) → SameView u v → KeepsTerms v u
SameView-KeepsTerms v u same t (o, found, e) = (o, same t.uuid ∙ found, e)

pub put-KeepsTerms :
    (o : Order) (v u : View)
    → (v o.order_uuid ≡ none) ⊎ HasTerms v (terms o)
    → SameView u (put o v)
    → KeepsTerms v u
put-KeepsTerms o v u before same t (old, found, e) = elim (Bool-cases (o.order_uuid == t.uuid)) [
  | inr miss ↦ (old, same t.uuid ∙ rw miss found, e)
  | inl hit ↦ (o, same t.uuid ∙ rw hit refl, own ((==_iff o.order_uuid t.uuid).0 hit) before)
]
  where
    own : o.order_uuid ≡ t.uuid → (v o.order_uuid ≡ none) ⊎ HasTerms v (terms o) → terms o ≡ t
    own key (inl unused) = cc (ap v key, unused, found)
    own key (inr (o', found', e')) =
        let same : o' ≡ old = ground (arith, ap v key, found, found') in sym e' ∙ ap terms same ∙ e

pub IsReady-KeepsTerms : (v u : View) (r : Request) → KeepsTerms v u → IsReady v r → IsReady u r
IsReady-KeepsTerms v u (charging method order) keeps (past, good, pending) =
    (keeps (terms order) past, good, pending)
IsReady-KeepsTerms v u (saving order) keeps (past, good) = (keeps (terms order) past, good)
IsReady-KeepsTerms v u (creating input) keeps h = tt
IsReady-KeepsTerms v u (storing input total) keeps h = tt
IsReady-KeepsTerms v u (getting id) keeps h = tt
IsReady-KeepsTerms v u (paying id method) keeps h = tt
IsReady-KeepsTerms v u (cancelling id) keeps h = tt
IsReady-KeepsTerms v u (finished r) keeps h = tt

-- What one turn does, to the storage and to the request that takes it.
pub record Advanced (v u : View) (r : Request) : Type 0 where
  pub sound : IsSound u
  pub keeps : KeepsTerms v u
  pub ready : IsReady u r

pub or_finish-IsReady :
    {A : Type 0} (v : View) (r : Result A) (next : A → Request)
    → ((a : A) → r ≡ ok a → IsReady v (next a))
    → IsReady v (or_finish r next)
or_finish-IsReady v (err e) next h = tt
or_finish-IsReady v (ok a) next h = h a refl

pub unchanged : (v u : View) (r : Request) → IsSound v → SameView u v → IsReady u r → Advanced v u r
unchanged v u r sound same ready = record {
  sound = SameView-IsSound sound same;
  keeps = SameView-KeepsTerms v u same;
  ready = ready;
}
