-- ===== src/Inventory/Service.antt =====
-- inventory/pkg/service/service.go. `sort_slice` is sort.Slice, from the function `less` that it is
-- called with.
pub mod Lookup
pub mod Names
pub mod Listing
use Prim.Native.Nat.{Ordering}
use Prim.Native.String.{compare}
use ms_ex.Prelude.{
  true, false, ℕ, String, Bool, not, List, [], ◌∷◌, ◌++◌, Option, none, some, ◌&&◌, ◌==◌, str_eq,
  if◌then◌else◌,
}
use ms_ex.Errors.{
  Error, sentinel, with_detail, Result, ok, err, is, ◌>>=◌, empty_uuid, invalid_uuid,
  part_not_found, inventory_repository_not_found,
}
use ms_ex.External.{Uuid, Libs}
use ms_ex.Wire.{PartType, part_type_unspecified}
use ms_ex.Inventory.Repository.{Part, Repository}

-- The branches on the error of GetPart of the repository.
unfoldable pub get_error : String → Error → Error
get_error raw_uuid e =
    if is e inventory_repository_not_found
    then with_detail (sentinel part_not_found) raw_uuid
    else e

-- sort.Slice of parts.
abbrev pub SortSlice : Type 0
SortSlice = (Part → Part → Bool) → List Part → List Part

-- A string before another by its code points, as Go's `<` is by the bytes of UTF-8.
abbrev pub is_less : Ordering → Bool
is_less Ordering.lt = true
is_less _ = false

-- The comparison that ListParts sorts by.
unfoldable pub by_name : Part → Part → Bool
by_name a b = is_less (compare a.name b.name)

abbrev pub mapped_get : String → Result Part → Result Part
mapped_get raw_uuid (ok part) = ok part
mapped_get raw_uuid (err e) = err (get_error raw_uuid e)

module _ (L : Libs) (repo : Repository) where
  -- Parse the id and read the part, with the errors that GetPart and ListParts both make.
  unfoldable pub resolve : String → Result Part
  resolve raw_uuid = elim (L.uuid_parse raw_uuid) [
    | none ↦ err (with_detail (sentinel invalid_uuid) raw_uuid)
    | some id ↦ mapped_get raw_uuid (repo.get_part id)
  ]

  unfoldable pub get_part : String → Result Part
  unfolding resolve
  get_part raw_uuid = if str_eq raw_uuid "" then err (sentinel empty_uuid) else resolve raw_uuid

  -- The loop over the ids, from the parts appended so far.
  unfoldable pub uuids_loop : List Part → List String → Result (List Part)
  uuids_loop parts [] = ok parts
  uuids_loop parts (raw_uuid ∷ rest) = do
    part ← resolve raw_uuid
    uuids_loop (parts ++ part ∷ []) rest

  -- The loop over all parts, from the parts appended so far.
  unfoldable pub type_loop : PartType → List Part → List Part → List Part
  type_loop part_type parts [] = parts
  type_loop part_type parts (part ∷ rest) =
      type_loop part_type
        (if not (part_type == part_type_unspecified) && not (part.part_type == part_type)
          then parts
          else parts ++ part ∷ [])
        rest

  abbrev listed : SortSlice → PartType → Result (List Part) → Result (List Part)
  listed sort_slice part_type all = do
    parts ← all
    ok (sort_slice by_name (type_loop part_type [] parts))

  unfoldable pub list_parts : SortSlice → PartType → List String → Result (List Part)
  unfolding uuids_loop type_loop
  list_parts sort_slice part_type [] = listed sort_slice part_type repo.list_parts
  list_parts sort_slice part_type (raw_uuid ∷ rest) = uuids_loop [] (raw_uuid ∷ rest)
