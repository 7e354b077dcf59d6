-- ===== src/Inventory/Agreement.antt =====
-- inventory/pkg: the service over memory.go and over postgres.go, with the same parts in both.
use ms_ex.Inventory.Service.{SortSlice}
use ms_ex.Prelude.{
  arith, subst, String, if◌then◌else◌, Option-cases, ◌++◌, ◌≡◌, refl, none, some, Option, List, [],
  ◌∷◌, map, Table, lookup, insert, lookup-insert, ◌==◌, Bool-cases, inl, inr,
}
use ms_ex.External.{Uuid, Libs, LibLaws}
use ms_ex.Errors.{is, ok, err, ◌>>=◌, Result}
use ms_ex.Wire.{PartType}
use ms_ex.Inventory.Repository.{Part, Repository}
use ms_ex.Inventory.Service.{resolve, get_part, uuids_loop, list_parts}
use ms_ex.Inventory.Repository.Memory as Memory
use ms_ex.Inventory.Repository.Memory.{index_parts}
use ms_ex.Inventory.Repository.Postgres as Postgres
use ms_ex.Inventory.Repository.Postgres.{Row, Database, scan_part}

-- The rows under their primary key.
abbrev pub by_key : List Row → Table Row
by_key [] = []
by_key (row ∷ rows) = insert row.uuid row (by_key rows)

abbrev scan_found : Libs → Option Row → Option Part
scan_found L none = none
scan_found L (some row) = some (scan_part L row)

module _ (L : Libs) where
  -- The map that holds the parts of the rows.
  pub record Loaded (rows : List Row) : Type 0 where
    pub table : Table Part
    pub indexed : index_parts L (map (scan_part L) rows) ≡ some table
    pub same : (id : Uuid) → lookup id table ≡ scan_found L (lookup id (by_key rows))

  abbrev pub memory : (Table Part → List Part) → Table Part → Repository
  memory order table = record {
    get_part = Memory.get_part table;
    list_parts = Memory.list_parts order table;
  }

  abbrev pub postgres : Database → Repository
  postgres db = record { get_part = Postgres.get_part L db; list_parts = Postgres.list_parts L db }

module _ (L : Libs) (laws : LibLaws L) where
  scan_found-insert :
      (id key : Uuid) (row : Row) (o : Option Row)
      → (if key == id then some (scan_part L row) else scan_found L o)
        ≡ scan_found L (if key == id then some row else o)
  scan_found-insert id key row o = elim (Bool-cases (key == id)) [
    | inl t ↦ rw t refl
    | inr f ↦ rw f refl
  ]

  pub load : (rows : List Row) → Loaded L rows
  unfolding index_parts lookup scan_part insert
  load [] = record { table = []; indexed = refl; same = λ id. refl }
  load (row ∷ rows) =
      let rest = load rows in
      record {
        table = insert row.uuid (scan_part L row) rest.table;
        indexed = rw (laws.parse_string row.uuid, rest.indexed) refl;
        same = λ id.
            rw
              (
                lookup-insert row.uuid id (scan_part L row) rest.table,
                lookup-insert row.uuid id row (by_key rows),
                rest.same id,
              )
              (scan_found-insert id row.uuid row (lookup id (by_key rows)));
      }

  module _ (rows : List Row) (order : Table Part → List Part) where
    -- The database with these rows, in which no query fails.
    abbrev pub database : Database
    database = record { by_key = by_key rows; rows = rows; fault = none }

    found-same :
        (o : Option Part) (row : Option Row) (id : Uuid)
        → lookup id (by_key rows) ≡ row
        → o ≡ scan_found L row
        → Memory.found o ≡ Postgres.get_part L database id
    unfolding Postgres.get_part is scan_part
    found-same o none id stored e = rw (e, Postgres.get_part, stored) refl
    found-same o (some row) id stored e = rw (e, Postgres.get_part, stored) refl

    get_part-same :
        (id : Uuid) → Memory.get_part (load rows).table id ≡ Postgres.get_part L database id
    unfolding Memory.get_part
    get_part-same id = found-same _ (lookup id (by_key rows)) id refl ((load rows).same id)

    resolve-same :
        (raw_uuid : String)
        → resolve L (memory L order (load rows).table) raw_uuid
          ≡ resolve L (postgres L database) raw_uuid
    unfolding resolve
    resolve-same raw_uuid = elim (Option-cases (L.uuid_parse raw_uuid)) [
      | inl failed ↦ rw (resolve, failed) refl
      | inr (id, parsed) ↦ rw (resolve, parsed, get_part-same id) refl
    ]

    uuids_loop-same :
        (parts : List Part) (uuids : List String)
        → uuids_loop L (memory L order (load rows).table) parts uuids
          ≡ uuids_loop L (postgres L database) parts uuids
    unfolding uuids_loop
    uuids_loop-same parts [] = refl
    uuids_loop-same parts (raw_uuid ∷ rest) =
        rw (uuids_loop, resolve-same raw_uuid)
          (continued (resolve L (postgres L database) raw_uuid)
            (λ part. uuids_loop-same (parts ++ part ∷ []) rest))
      where
        continued :
            (r : Result Part) {next next' : Part → Result (List Part)}
            → ((part : Part) → next part ≡ next' part)
            → (r >>= next) ≡ (r >>= next')
        continued (ok part) h = h part
        continued (err e) h = refl

    -- Where a map holds the parts of some rows, under their ids, and a database holds the rows and
    -- reports no fault, the service over the map and the service over the database answer alike to
    -- GetPart of any id and to ListParts of one or more ids, errors included.
    pub services_agree :
        (table : Table Part) (raw_uuid : String) (sort_slice : SortSlice) (part_type : PartType)
        (uuids : List String)
        → index_parts L (map (scan_part L) rows) ≡ some table
        → (get_part L (memory L order table) raw_uuid ≡ get_part L (postgres L database) raw_uuid)
          × (list_parts L (memory L order table) sort_slice part_type (raw_uuid ∷ uuids)
              ≡ list_parts L (postgres L database) sort_slice part_type (raw_uuid ∷ uuids))
    unfolding get_part list_parts
    services_agree table raw_uuid sort_slice part_type uuids indexed =
        subst Agree (ground (arith, indexed, (load rows).indexed))
          (rw (resolve-same raw_uuid) refl, uuids_loop-same [] (raw_uuid ∷ uuids))
      where
        Agree : Table Part → Type 0
        Agree t =
            (get_part L (memory L order t) raw_uuid ≡ get_part L (postgres L database) raw_uuid)
            × (list_parts L (memory L order t) sort_slice part_type (raw_uuid ∷ uuids)
                ≡ list_parts L (postgres L database) sort_slice part_type (raw_uuid ∷ uuids))
