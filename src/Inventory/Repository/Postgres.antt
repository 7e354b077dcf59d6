-- ===== src/Inventory/Repository/Postgres.antt =====
-- inventory/pkg/repository/postgres.go.
use ms_ex.Prelude.{String, ℤ, Option, none, some, List, [], ◌∷◌, ◌++◌, Table, lookup, if◌then◌else◌}
use ms_ex.Errors.{
  sentinel, with_context, foreign, Result, ok, err, is, no_rows, inventory_repository_not_found,
}
use ms_ex.External.{Uuid, Time, Libs}
use ms_ex.Wire.{PartType}
use ms_ex.Inventory.Repository.{Part}

-- A row of `parts`.
pub record Row : Type 0 where
  pub uuid : Uuid
  pub name : String
  pub description : String
  pub price : ℤ
  pub part_type : PartType
  pub stock_quantity : ℤ
  pub created_at : Time

-- The rows by primary key, the rows as the listing query returns them, and whether the driver
-- reports an error, by its text.
pub record Database : Type 0 where
  pub by_key : Table Row
  pub rows : List Row
  pub fault : Option String

-- The part of a scanned row.
unfoldable pub scan_part : Libs → Row → Part
scan_part L row = record {
  uuid = L.uuid_string row.uuid;
  name = row.name;
  description = row.description;
  price = row.price;
  part_type = row.part_type;
  stock_quantity = row.stock_quantity;
  created_at = row.created_at;
}

-- QueryRow(...).Scan
unfoldable pub query_part : Database → Uuid → Result Row
query_part db id = elim db.fault [
  | some text ↦ err (foreign text)
  | none ↦ elim (lookup id db.by_key) [ none ↦ err (sentinel no_rows) | some row ↦ ok row ]
]

unfoldable pub get_part : Libs → Database → Uuid → Result Part
unfolding query_part
get_part L db id = elim (query_part db id) [
  | ok row ↦ ok (scan_part L row)
  | err e ↦
      if is e no_rows
      then err (sentinel inventory_repository_not_found)
      else err (with_context "get part" e)
]

-- The loop over rows.Next, from the parts appended so far.
unfoldable pub scan_parts : Libs → List Part → List Row → List Part
scan_parts L parts [] = parts
scan_parts L parts (row ∷ rows) = scan_parts L (parts ++ scan_part L row ∷ []) rows

unfoldable pub list_parts : Libs → Database → Result (List Part)
unfolding scan_parts
list_parts L db = elim db.fault [
  | some text ↦ err (with_context "list parts" (foreign text))
  | none ↦ ok (scan_parts L [] db.rows)
]
