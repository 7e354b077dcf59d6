-- ===== src/Order/Service/Life.antt =====
-- The life of an order: what any sequence of the service's operations does to the stored orders.
use ms_ex.Prelude.{
  ℤ, ◌≡◌, ◌≢◌, refl, sym, ap, subst, ◌∙◌, Option, none, some, inl, inr, ◌⊎◌, arith, ◌==◌, ==_iff,
  Bool-cases, str_eq_iff,
}
use ms_ex.External.{Uuid, Time}
use ms_ex.Order.Data.{Order, PaymentMethod, status_pending_payment, status_paid, status_cancelled}
use ms_ex.Order.Repository.{View, put}
use ms_ex.Order.Service.{CreateOrderInput, new_order, paid_with, cancelled}
use ms_ex.Order.Service.Saving.{IsKeyed, SameView}

-- The status is one of the three, and an order has a transaction and a method exactly if it is paid.
pub data IsWellFormed (o : Order) : Type 0 where
  open_order :
      o.status ≡ status_pending_payment
      → o.transaction_uuid ≡ none
      → o.payment_method ≡ none
      → IsWellFormed o
  paid_order :
      (transaction : Uuid) (method : PaymentMethod)
      → o.status ≡ status_paid
      → o.transaction_uuid ≡ some transaction
      → o.payment_method ≡ some method
      → IsWellFormed o
  cancelled_order :
      o.status ≡ status_cancelled
      → o.transaction_uuid ≡ none
      → o.payment_method ≡ none
      → IsWellFormed o

-- The invariant of the storage.
pub record IsSound (v : View) : Type 0 where
  pub keyed : IsKeyed v
  pub well_formed : (id : Uuid) (o : Order) → v id ≡ some o → IsWellFormed o

-- What may become of an order in one operation.
pub data Follows (o o' : Order) : Type 0 where
  stays : o' ≡ o → Follows o o'
  pays :
      (transaction : Uuid) (method : PaymentMethod)
      → o.status ≡ status_pending_payment
      → o' ≡ paid_with transaction method o
      → Follows o o'
  cancels : o.status ≡ status_pending_payment → o' ≡ cancelled o → Follows o o'

put_cases :
    (o : Order) (v : View) (id : Uuid) {o' : Order}
    → put o v id ≡ some o'
    → ((o.order_uuid ≡ id) × (o' ≡ o)) ⊎ (v id ≡ some o')
put_cases o v id h = ground (arith, ==_iff o.order_uuid id)

pub put-IsSound :
    (o : Order) {v u : View} → IsSound v → IsWellFormed o → SameView u (put o v) → IsSound u
put-IsSound o {v} {u} sound good same = record {
  keyed = λ id o' h. elim (put_cases o v id (sym (same id) ∙ h)) [
    | inl (key, e) ↦ ap (λ (x : Order). x.order_uuid) e ∙ key
    | inr old ↦ sound.keyed id o' old
  ];
  well_formed = λ id o' h. elim (put_cases o v id (sym (same id) ∙ h)) [
    | inl (key, e) ↦ subst IsWellFormed (sym e) good
    | inr old ↦ sound.well_formed id o' old
  ];
}

pub SameView-IsSound : {v u : View} → IsSound v → SameView u v → IsSound u
SameView-IsSound sound same = record {
  keyed = λ id o h. sound.keyed id o (sym (same id) ∙ h);
  well_formed = λ id o h. sound.well_formed id o (sym (same id) ∙ h);
}

pub new_order-IsWellFormed :
    (id : Uuid) (now : Time) (input : CreateOrderInput) (total : ℤ)
    → IsWellFormed (new_order id now input total)
unfolding new_order
new_order-IsWellFormed id now input total = open_order refl refl refl

pub paid_with-IsWellFormed :
    (t : Uuid) (method : PaymentMethod) (o : Order) → IsWellFormed (paid_with t method o)
unfolding paid_with
paid_with-IsWellFormed t method o = paid_order t method refl refl refl

-- A pending order carries no payment, so its cancellation carries none.
pub cancelled-IsWellFormed :
    (o : Order) → IsWellFormed o → o.status ≡ status_pending_payment → IsWellFormed (cancelled o)
unfolding cancelled
cancelled-IsWellFormed o (open_order s t m) h = cancelled_order refl t m
cancelled-IsWellFormed o (paid_order _ _ s t m) h =
    absurd (grind (arith, str_eq_iff status_paid status_pending_payment))
cancelled-IsWellFormed o (cancelled_order s t m) h = cancelled_order refl t m

-- What one operation does to the stored orders: nothing, a new order, or one order that goes on.
pub data Change (v u : View) : Type 0 where
  none_changed : SameView u v → Change v u
  one_added :
      (id : Uuid) (now : Time) (input : CreateOrderInput) (total : ℤ)
      → v id ≡ none
      → SameView u (put (new_order id now input total) v)
      → Change v u
  one_paid :
      (id : Uuid) (old : Order) (t : Uuid) (method : PaymentMethod)
      → v id ≡ some old
      → old.status ≡ status_pending_payment
      → SameView u (put (paid_with t method old) v)
      → Change v u
  one_cancelled :
      (id : Uuid) (old : Order)
      → v id ≡ some old
      → old.status ≡ status_pending_payment
      → SameView u (put (cancelled old) v)
      → Change v u

pub Change-IsSound : {v u : View} → IsSound v → Change v u → IsSound u
Change-IsSound sound (none_changed same) = SameView-IsSound sound same
Change-IsSound sound (one_added id now input total fresh same) =
    put-IsSound _ sound (new_order-IsWellFormed id now input total) same
Change-IsSound sound (one_paid id old t method found pending same) =
    put-IsSound _ sound (paid_with-IsWellFormed t method old) same
Change-IsSound sound (one_cancelled id old found pending same) =
    put-IsSound _ sound (cancelled-IsWellFormed old (sound.well_formed id old found) pending) same

-- One order was replaced by another of the same id.
replaced :
    (id : Uuid) (o' : Order) {v u : View} {old o : Order} (j : Uuid)
    → IsKeyed v
    → v id ≡ some old
    → o'.order_uuid ≡ old.order_uuid
    → SameView u (put o' v)
    → Follows old o'
    → v j ≡ some o
    → (x : Order) × (u j ≡ some x) × Follows o x
replaced id o' {v} {u} {old} {o} j keyed found key same f at =
    elim (Bool-cases (o'.order_uuid == j)) [
      | inl hit ↦
          let e : j ≡ id = sym ((==_iff o'.order_uuid j).0 hit) ∙ key ∙ keyed id old found in
          let e' : o ≡ old = ground (arith, at, found, ap v e) in
          (o', same j ∙ rw hit refl, subst (λ x. Follows x o') (sym e') f)
      | inr miss ↦ (o, same j ∙ rw miss at, stays refl)
    ]

pub Change-Follows :
    {v u : View} {o : Order} (id : Uuid)
    → IsKeyed v
    → Change v u
    → v id ≡ some o
    → (o' : Order) × (u id ≡ some o') × Follows o o'
unfolding new_order paid_with cancelled
Change-Follows {o = o} id keyed (none_changed same) found = (o, same id ∙ found, stays refl)
Change-Follows {o = o} id keyed (one_added j now input total fresh same) found =
    (o, same id ∙ ground (arith, found, fresh, ==_iff j id), stays refl)
Change-Follows id keyed (one_paid j old t method found' pending same) found =
    replaced j (paid_with t method old) id keyed found' refl same (pays t method pending refl) found
Change-Follows id keyed (one_cancelled j old found' pending same) found =
    replaced j (cancelled old) id keyed found' refl same (cancels pending refl) found

pub Follows-final : {o o' : Order} → Follows o o' → o.status ≢ status_pending_payment → o' ≡ o
Follows-final (stays e) final = e
Follows-final (pays t m pending e) final = absurd (final pending)
Follows-final (cancels pending e) final = absurd (final pending)

-- The fields that no operation changes.
pub record Terms : Type 0 where
  pub uuid : Uuid
  pub hull : Uuid
  pub engine : Uuid
  pub shield : Option Uuid
  pub weapon : Option Uuid
  pub price : ℤ
  pub created : Time

abbrev pub terms : Order → Terms
terms o = record {
  uuid = o.order_uuid;
  hull = o.hull_uuid;
  engine = o.engine_uuid;
  shield = o.shield_uuid;
  weapon = o.weapon_uuid;
  price = o.total_price;
  created = o.created_at;
}

pub terms-Follows : {o o' : Order} → Follows o o' → terms o' ≡ terms o
unfolding paid_with cancelled
terms-Follows (stays e) = ap terms e
terms-Follows (pays t m pending e) = ap terms e
terms-Follows (cancels pending e) = ap terms e
