-- ===== src/Order/Repository/Contract.antt =====
-- The two storages of orders against the contract `IsStorageOf`: the map behind the no-op transaction
-- manager, and the table behind a transaction manager that commits or rolls back.
use ms_ex.Prelude.{
  ◌≡◌, refl, ap, ◌%◌, ◌↔◌, Option, none, some, arith, lookup, insert, lookup-insert,
}
use ms_ex.Errors.{Error, is}
use ms_ex.Order.Data.{Order}
use ms_ex.Order.Repository.{Repository, TrManager, noop, View, Fits, IsStorage, IsStorageOf}
use ms_ex.Order.Repository.Memory
use ms_ex.Order.Repository.Postgres
use ms_ex.Order.Repository.Postgres.{Database, to_microseconds, as_stored, upsert}
use ms_ex.External.{Time}

abbrev pub memory : Repository Memory.Orders
memory = record { save = Memory.save; get = Memory.get }

abbrev pub memory_view : Memory.Orders → View
memory_view orders id = lookup id orders

-- The map of orders behind the no-op transaction manager is a storage: a save that reports no error
-- puts the order in its place and leaves the others, one that reports an error changes nothing, and
-- a read answers with what is stored, or that nothing is.
pub memory-IsStorage : IsStorage memory noop memory_view
unfolding noop Memory.save Memory.get is
memory-IsStorage = record {
  save_ok = λ o s done fits id. lookup-insert o.order_uuid id o s;
  save_err = λ o s e failed id. cc;
  get_ok = λ id s o h. ground arith;
  get_missing = λ id s e h m. ground arith;
}

abbrev pub postgres : Repository Database
postgres = record { save = Postgres.save; get = Postgres.get }

abbrev pub postgres_view : Database → View
postgres_view db id = lookup id db.rows

-- Do commits what the body wrote when it reports no error, and rolls back when it reports one. What
-- the driver answers afterwards is open.
pub record IsTransactional (tr : TrManager Database) : Type 0 where
  pub commit :
      (fn : Database → Option Error × Database) (db : Database)
      → (tr.run fn db).0 ≡ none
      → ((fn db).0 ≡ none) × ((tr.run fn db).1.rows ≡ (fn db).1.rows)
  pub rollback :
      (fn : Database → Option Error × Database) (db : Database) (e : Error)
      → (tr.run fn db).0 ≡ some e
      → (tr.run fn db).1.rows ≡ db.rows

-- Where the creation time is that of the row, the upsert writes the order's row.
upsert-Fits : (o : Order) (row : Option Order) → Fits (as_stored o) row → upsert o row ≡ as_stored o
unfolding upsert
upsert-Fits o none h = refl
upsert-Fits o (some row) h = ground arith

rows-save :
    (o : Order) (db : Database)
    → (Postgres.save o db).0 ≡ none
    → (Postgres.save o db).1.rows
      ≡ insert o.order_uuid (upsert o (lookup o.order_uuid db.rows)) db.rows
unfolding Postgres.save
rows-save o db h = ground arith

-- The table of orders behind a transaction manager that commits what reported no error and rolls
-- back otherwise is a storage that keeps the creation time of an order in whole microseconds: a
-- save that reports no error puts the order so cut in its place and leaves the others, where a row
-- with that id had this creation time, one that reports an error changes nothing, and a read
-- answers with what is stored, or that nothing is. Exactly the orders whose creation time is a
-- number of whole microseconds are kept as they are.
pub postgres-IsStorageOf :
    (tr : TrManager Database)
    → IsTransactional tr
    → IsStorageOf as_stored postgres tr postgres_view
      × ((o : Order) → (as_stored o ≡ o) ↔ (o.created_at % 1000 ≡ 0))
postgres-IsStorageOf tr t = (
  record {
    save_ok = λ o db done fits id.
        let (saved, rows) = t.commit (Postgres.save o) db done in
        rw (rows, rows-save o db saved, upsert-Fits o (lookup o.order_uuid db.rows) fits)
          (lookup-insert o.order_uuid id (as_stored o) db.rows);
    save_err = λ o db e failed id. rw (t.rollback (Postgres.save o) db e failed) refl;
    get_ok = λ id db o h. unfold Postgres.get is in ground arith;
    get_missing = λ id db e h m. unfold Postgres.get is in ground arith;
  },
  λ o. (
    λ e. whole o.created_at (ap (λ (x : Order). x.created_at) e),
    λ h. ap (λ (t : Time). record o { created_at = t }) (kept_time o.created_at h),
  ),
)
  where
    whole : (t : Time) → to_microseconds t ≡ t → t % 1000 ≡ 0
    whole t h = omega (arith, h)

    kept_time : (t : Time) → t % 1000 ≡ 0 → to_microseconds t ≡ t
    kept_time t h = omega (arith, h)
