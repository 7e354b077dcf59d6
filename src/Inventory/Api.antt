-- ===== src/Inventory/Api.antt =====
-- inventory/pkg/api/grpc.go.
use ms_ex.Inventory.Service.{SortSlice}
use ms_ex.Prelude.{String, ◌||◌, List, map, if◌then◌else◌}
use ms_ex.Errors.{
  Error, status, error_text, Result, ok, err, is, empty_uuid, invalid_uuid, part_not_found,
}
use ms_ex.External.{Libs, invalid_argument, not_found, internal}
use ms_ex.Wire.{ProtoPart, ListPartsRequest}
use ms_ex.Inventory.Repository.{Part, Repository}
use ms_ex.Inventory.Service

unfoldable pub to_proto : Part → ProtoPart
to_proto p = record {
  uuid = p.uuid;
  name = p.name;
  description = p.description;
  price = p.price;
  part_type = p.part_type;
  stock_quantity = p.stock_quantity;
  created_at = p.created_at;
}

unfoldable pub to_status_err : Libs → Error → Error
to_status_err L e =
    if is e empty_uuid || is e invalid_uuid
    then status invalid_argument (error_text L.status_text e)
    else if is e part_not_found
    then status not_found (error_text L.status_text e)
    else status internal (error_text L.status_text e)

module _ (L : Libs) (repo : Repository) where
  abbrev part_response : Result Part → Result ProtoPart
  part_response (ok part) = ok (to_proto part)
  part_response (err e) = err (to_status_err L e)

  unfoldable pub get_part : String → Result ProtoPart
  get_part uuid = part_response (Service.get_part L repo uuid)

  abbrev pub parts_response : Result (List Part) → Result (List ProtoPart)
  parts_response (ok parts) = ok (map to_proto parts)
  parts_response (err e) = err (to_status_err L e)

  unfoldable pub list_parts : SortSlice → ListPartsRequest → Result (List ProtoPart)
  list_parts sort_slice request =
      parts_response (Service.list_parts L repo sort_slice request.part_type request.uuids)
