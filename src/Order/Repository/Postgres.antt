-- ===== src/Order/Repository/Postgres.antt =====
-- order/pkg/repository/postgres.go, as the table `orders` of order/migrations. The statements'
-- meaning is SQL's; whether the database answers is an argument.
use ms_ex.Prelude.{◌*◌, ◌/◌, String, Option, none, some, if◌then◌else◌, Table, lookup, insert}
use ms_ex.Errors.{
  Error, sentinel, with_context, foreign, Result, ok, err, is, no_rows, order_repository_not_found,
}
use ms_ex.External.{Uuid, Time}
use ms_ex.Order.Data.{Order}

-- The rows by primary key, and whether the driver reports an error, by its text, for the next
-- statement.
pub record Database : Type 0 where
  pub rows : Table Order
  pub fault : Option String

-- A TIMESTAMPTZ column keeps whole microseconds of the nanoseconds of a time.
abbrev pub to_microseconds : Time → Time
to_microseconds t = t / 1000 * 1000

-- The row of an order.
abbrev pub as_stored : Order → Order
as_stored order = record order { created_at = to_microseconds order.created_at }

-- INSERT ... ON CONFLICT (order_uuid) DO UPDATE SET: every column but `created_at`.
unfoldable pub upsert : Order → Option Order → Order
upsert order none = as_stored order
upsert order (some row) = record order { created_at = row.created_at }

unfoldable pub exec_save : Order → Database → Option Error × Database
unfolding upsert
exec_save order db = elim db.fault [
  | none ↦ (
    none,
    record db {
      rows = insert order.order_uuid (upsert order (lookup order.order_uuid db.rows)) db.rows;
    },
  )
  | some text ↦ (some (foreign text), db)
]

abbrev save_error : Option Error → Option Error
save_error none = none
save_error (some e) = some (with_context "save order" e)

unfoldable pub save : Order → Database → Option Error × Database
unfolding exec_save
save order db = let (failed, db') = exec_save order db in (save_error failed, db')

-- QueryRow(...).Scan
unfoldable pub query_order : Uuid → Database → Result Order
query_order id db = elim db.fault [
  | some text ↦ err (foreign text)
  | none ↦ elim (lookup id db.rows) [ none ↦ err (sentinel no_rows) | some order ↦ ok order ]
]

unfoldable pub get : Uuid → Database → Result Order
unfolding query_order
get id db = elim (query_order id db) [
  | ok order ↦ ok order
  | err e ↦
      if is e no_rows
      then err (sentinel order_repository_not_found)
      else err (with_context "get order" e)
]
