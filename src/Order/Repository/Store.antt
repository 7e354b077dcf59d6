-- ===== src/Order/Repository/Store.antt =====
-- The stored orders of order/pkg/repository/memory.go up to their order in the map: two maps that
-- answer each lookup alike are one store.
use ms_ex.Prelude.{
  ◌≡◌, refl, Option, some, arith, lookup, lookup-insert, ◌==◌, ==_iff, Bool-cases, inl, inr,
  if◌then◌else◌,
}
use text.Mathlib.TextEquality.{IsScalar-prop}
use native.Mathlib.Nat.{ℕ_set}
use mathlib.Core.Quot
use mathlib.Core.Quot.{Quot, Quot-set}
use ms_ex.Errors.{Result, ok}
use ms_ex.External.{Uuid}
use ms_ex.Order.Data.{Order}
use ms_ex.Order.Repository.Memory.{Orders, save, get, found}

-- Two maps with the same orders.
abbrev pub SameOrders : Orders → Orders → Type 0
SameOrders a b = (id : Uuid) → lookup id a ≡ lookup id b

abbrev pub Store : Type 0
Store = Quot SameOrders

pub Option_Order_set : IsSet (Option Order)
Option_Order_set = hlevel (IsScalar-prop, ℕ_set)

-- What a store has under an id.
unfoldable pub stored : Uuid → Store → Option Order
stored id = Quot.lift Option_Order_set (lookup id) (λ a b same. same id)

pub save-SameOrders :
    (o : Order) (a b : Orders) → SameOrders a b → SameOrders (save o a).1 (save o b).1
unfolding save
save-SameOrders o a b same id =
    rw (lookup-insert o.order_uuid id o a, lookup-insert o.order_uuid id o b, same id) refl

-- Save, on stores.
unfoldable pub store_save : Order → Store → Store
store_save o =
    Quot.lift Quot-set (λ (a : Orders). Quot.mk (save o a).1)
      (λ a b same. Quot.sound (save-SameOrders o a b same))

-- Get, on stores.
abbrev pub store_get : Uuid → Store → Result Order
store_get id s = found (stored id s)

get-store_get : (id : Uuid) (a : Orders) → get id a ≡ store_get id (Quot.mk a)
unfolding get stored
get-store_get id a = refl

stored-store_save :
    (o : Order) (id : Uuid) (s : Store)
    → stored id (store_save o s) ≡ (if o.order_uuid == id then some o else stored id s)
unfolding stored store_save save
stored-store_save o id =
    Quot.ind (λ s. Option_Order_set _ _) (λ a. lookup-insert o.order_uuid id o a)

-- A store is what it has.
stored_ext : (s t : Store) → ((id : Uuid) → stored id s ≡ stored id t) → s ≡ t
unfolding stored
stored_ext =
    Quot.ind (λ s. hlevel Quot-set) (λ a. Quot.ind (λ t. hlevel Quot-set) (λ b h. Quot.sound h))

store_save-store_save :
    (o o' : Order) (s : Store)
    → store_save o (store_save o' s)
      ≡ (if o.order_uuid == o'.order_uuid then store_save o s else store_save o' (store_save o s))
store_save-store_save o o' s = elim (Bool-cases (o.order_uuid == o'.order_uuid)) [
  | inl same ↦ rw same (
      stored_ext _ _
        (λ id. simp stored-store_save (ground (arith, ==_iff o.order_uuid o'.order_uuid, same))))
  | inr other ↦ rw other (
      stored_ext _ _ (λ id. simp stored-store_save (
        ground (
          arith,
          ==_iff o.order_uuid id,
          ==_iff o'.order_uuid id,
          ==_iff o.order_uuid o'.order_uuid,
          other,
        ))))
]

store_get-store_save :
    (o : Order) (id : Uuid) (s : Store)
    → store_get id (store_save o s) ≡ (if o.order_uuid == id then ok o else store_get id s)
store_get-store_save o id s = elim (Bool-cases (o.order_uuid == id)) [
  | inl hit ↦ rw (stored-store_save o id s, hit) refl
  | inr miss ↦ rw (stored-store_save o id s, miss) refl
]

-- Of the map of orders, taken up to the order of its entries: what a read finds after an order was
-- saved is that order under its own id, and what it found before under any other; and of two saves
-- one after another, the later one replaces the earlier if they are under one id, and they can be
-- exchanged if not.
pub store_laws :
    (o o' : Order) (id : Uuid) (s : Store)
    → (store_get id (store_save o s) ≡ (if o.order_uuid == id then ok o else store_get id s))
      × (store_save o (store_save o' s) ≡ (
          if o.order_uuid == o'.order_uuid then store_save o s else store_save o' (store_save o s)))
store_laws o o' id s = (store_get-store_save o id s, store_save-store_save o o' s)
