-- ===== src/Inventory/Repository.antt =====
-- inventory/pkg/repository/repository.go: the parts of the catalog and the interface to it.
pub mod Memory
pub mod Postgres
use ms_ex.Prelude.{String, ℤ, List}
use ms_ex.Errors.{Result}
use ms_ex.External.{Uuid, Time}
use ms_ex.Wire.{PartType}

pub record Part : Type 0 where
  pub uuid : String
  pub name : String
  pub description : String
  pub price : ℤ
  pub part_type : PartType
  pub stock_quantity : ℤ
  pub created_at : Time

-- The catalog is only read, so one call sees one state of it.
pub record Repository : Type 0 where
  pub get_part : Uuid → Result Part
  pub list_parts : Result (List Part)
