-- ===== src/Order/Repository.antt =====
-- The storage of orders: the interfaces `Repository` (repository.go) and `TrManager`
-- (service/tx_manager.go), and the contract that the service relies on.
pub mod Memory
pub mod Postgres
pub mod Contract
pub mod Store
use ms_ex.Prelude.{◌≡◌, true, Option, none, some, ◌==◌, if◌then◌else◌}
use ms_ex.Errors.{Error, Result, ok, err, is, order_repository_not_found}
use ms_ex.External.{Uuid}
use ms_ex.Order.Data.{Order}

-- `R` is the state that the implementation keeps. A returned `error` is an Option.
pub record Repository (R : Type 0) : Type 0 where
  pub save : Order → R → Option Error × R
  pub get : Uuid → R → Result Order

-- Do(ctx, fn): the transaction's body acts on the stored state.
pub record TrManager (R : Type 0) : Type 0 where
  pub run : (R → Option Error × R) → R → Option Error × R

-- NewNoopTrManager
unfoldable pub noop : {R : Type 0} → TrManager R
noop = record { run = λ fn. fn }

-- What is stored, as the clients of the interface see it.
abbrev pub View : Type 0
View = Uuid → Option Order

-- The order takes its place under its own id.
abbrev pub put : Order → View → View
put o v id = if o.order_uuid == id then some o else v id

-- A stored order may be overwritten by one of the same creation time only.
abbrev pub Fits : Order → Option Order → Type 0
Fits o none = Unit
Fits o (some old) = old.created_at ≡ o.created_at

-- A save in a transaction either takes effect or reports an error and changes nothing; a read that
-- answers tells what is stored. Either may also fail with an error of its own. `kept` is what the
-- storage keeps of an order.
pub record IsStorageOf {R : Type 0} (kept : Order → Order) (repo : Repository R) (tr : TrManager R)
    (view : R → View) : Type 0 where
  pub save_ok :
      (o : Order) (s : R)
      → (tr.run (repo.save o) s).0 ≡ none
      → Fits (kept o) (view s o.order_uuid)
      → (id : Uuid) → view (tr.run (repo.save o) s).1 id ≡ put (kept o) (view s) id
  pub save_err :
      (o : Order) (s : R) (e : Error)
      → (tr.run (repo.save o) s).0 ≡ some e
      → (id : Uuid) → view (tr.run (repo.save o) s).1 id ≡ view s id
  pub get_ok : (id : Uuid) (s : R) (o : Order) → repo.get id s ≡ ok o → view s id ≡ some o
  pub get_missing :
      (id : Uuid) (s : R) (e : Error)
      → repo.get id s ≡ err e
      → is e order_repository_not_found ≡ true
      → view s id ≡ none

-- A storage that keeps an order as it is.
abbrev pub IsStorage : {R : Type 0} → Repository R → TrManager R → (R → View) → Type 0
IsStorage repo tr view = IsStorageOf (λ o. o) repo tr view
