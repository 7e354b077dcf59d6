-- ===== src/Examples/Catalogs.antt =====
-- The theorem on the two repositories of parts at a concrete input.
use ms_ex.Prelude.{pos, ◌≡◌, refl, some, List, [], ◌∷◌, map, Table, insert}
use ms_ex.Wire.{part_type_hull}
use ms_ex.Inventory.Repository.{Part}
use ms_ex.Inventory.Repository.Memory.{index_parts}
use ms_ex.Inventory.Repository.Postgres.{Row, scan_part}
use ms_ex.Inventory.Service.{get_part, list_parts}
use ms_ex.Inventory.Agreement.{memory, postgres, database, services_agree}
use ms_ex.Examples.Data.{libs, lib_laws, same_order}

abbrev hull_row : Row
hull_row = record {
  uuid = 1;
  name = "Aluminum Hull";
  description = "";
  price = pos 500000;
  part_type = part_type_hull;
  stock_quantity = pos 10;
  created_at = 0;
}

abbrev stocked : List Row
stocked = hull_row ∷ []

abbrev no_order : Table Part → List Part
no_order table = []

abbrev hull_table : Table Part
hull_table = (1, scan_part libs hull_row) ∷ []

hull_indexed : index_parts libs (map (scan_part libs) stocked) ≡ some hull_table
unfolding index_parts scan_part insert
hull_indexed = refl

services_agree_example :
    (get_part libs (memory libs no_order hull_table) "x."
      ≡ get_part libs (postgres libs (database libs lib_laws stocked no_order)) "x.")
    × (list_parts libs
          (memory libs no_order hull_table)
          same_order
          part_type_hull
          ("x." ∷ "x.." ∷ [])
        ≡ list_parts libs
            (postgres libs (database libs lib_laws stocked no_order))
            same_order
            part_type_hull
            ("x." ∷ "x.." ∷ []))
services_agree_example =
    services_agree libs lib_laws stocked no_order hull_table "x." same_order part_type_hull
      ("x.." ∷ []) hull_indexed
