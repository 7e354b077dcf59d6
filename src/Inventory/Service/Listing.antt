-- ===== src/Inventory/Service/Listing.antt =====
-- The listing of inventory/pkg/service/service.go by part type.
use ms_ex.Prelude.{
  ◌≡◌, refl, sym, ◌∙◌, Bool, ◌||◌, List, [], ◌∷◌, ◌++◌, ◌==◌, if◌then◌else◌, inl, inr, Bool-cases,
}
use mathlib.Core.List.{append-nil, append_assoc, Perm}
use ms_ex.Errors.{ok}
use ms_ex.External.{Libs}
use ms_ex.Wire.{PartType, part_type_unspecified}
use ms_ex.Inventory.Repository.{Part, Repository}
use ms_ex.Inventory.Service.{SortSlice, by_name, type_loop, list_parts}
use ms_ex.Inventory.Service.Names.{
  IsWeakOrder, IsInOrder, by_name-IsWeakOrder, IsSortedByName, IsSortedByName-of_IsInOrder,
}

-- The parts that a listing by type asks for.
abbrev pub is_asked : PartType → Part → Bool
is_asked part_type part = part_type == part_type_unspecified || part.part_type == part_type

abbrev pub asked_parts : PartType → List Part → List Part
asked_parts part_type [] = []
asked_parts part_type (part ∷ rest) =
    if is_asked part_type part
    then part ∷ asked_parts part_type rest
    else asked_parts part_type rest

-- What package sort says of sort.Slice: it exchanges elements of the slice, and the slice is sorted
-- afterwards if `less` is a strict weak order. It says nothing on the order of equal elements.
pub record IsSort (sort_slice : SortSlice) : Type 0 where
  pub permutes :
      (less : Part → Part → Bool) (parts : List Part) → Perm (sort_slice less parts) parts
  pub orders :
      (less : Part → Part → Bool)
      → IsWeakOrder less
      → (parts : List Part) → IsInOrder less (sort_slice less parts)

module _ (L : Libs) (repo : Repository) where
  type_loop-asked_parts :
      (part_type : PartType) (acc all : List Part)
      → type_loop L repo part_type acc all ≡ acc ++ asked_parts part_type all
  unfolding type_loop
  type_loop-asked_parts part_type acc [] = sym (append-nil acc)
  type_loop-asked_parts part_type acc (part ∷ rest) =
      elim (Bool-cases (part_type == part_type_unspecified)) [
        | inl every ↦ rw every (
            type_loop-asked_parts part_type (acc ++ part ∷ []) rest
            ∙ append_assoc acc (part ∷ []) (asked_parts part_type rest))
        | inr some_type ↦ elim (Bool-cases (part.part_type == part_type)) [
          | inl same ↦
              rw (some_type, same)
                (type_loop-asked_parts part_type (acc ++ part ∷ []) rest
                  ∙ append_assoc acc (part ∷ []) (asked_parts part_type rest))
          | inr other ↦ rw (some_type, other) (type_loop-asked_parts part_type acc rest)
        ]
      ]

  -- Asked for no ids, and where the repository answers with a list, ListParts returns a list of
  -- exactly those of its parts, each as often as it stands there, that have the part type asked
  -- for, or of all parts if the type asked for is the unspecified one; and no part of the list has
  -- a name less than that of the part before it. sort.Slice is any function that exchanges elements
  -- and sorts by a strict weak order, as package sort says of it.
  pub list_parts_by_type :
      (sort_slice : SortSlice) (part_type : PartType) {all : List Part}
      → IsSort sort_slice
      → repo.list_parts ≡ ok all
      → (parts : List Part) × (list_parts L repo sort_slice part_type [] ≡ ok parts)
        × Perm parts (asked_parts part_type all)
        × IsSortedByName parts
  unfolding list_parts
  list_parts_by_type sort_slice part_type {all} sorts h =
      let asked = asked_parts part_type all in
      (
        sort_slice by_name asked,
        rw (h, type_loop-asked_parts part_type [] all) refl,
        sorts.permutes by_name asked,
        IsSortedByName-of_IsInOrder (sort_slice by_name asked)
            (sorts.orders by_name by_name-IsWeakOrder asked),
      )
