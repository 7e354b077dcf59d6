-- ===== src/Examples/Sorting.antt =====
-- Insertion sort, as a sort.Slice of package sort.
use mathlib.Core.List.{Perm}
use mathlib.Core.List.Perm
use ms_ex.Prelude.{◌≡◌, Bool, false, List, [], ◌∷◌, inl, inr, Bool-cases, if◌then◌else◌}
use ms_ex.Inventory.Repository.{Part}
use ms_ex.Inventory.Service.{SortSlice}
use ms_ex.Inventory.Service.Names.{IsWeakOrder, IsInOrder}
use ms_ex.Inventory.Service.Listing.{IsSort}

abbrev insert_by : (Part → Part → Bool) → Part → List Part → List Part
insert_by less part [] = part ∷ []
insert_by less part (next ∷ rest) =
    let later = insert_by less part rest in
    if less part next then part ∷ next ∷ rest else next ∷ later

abbrev pub insertion_sort : SortSlice
insertion_sort less [] = []
insertion_sort less (part ∷ rest) = insert_by less part (insertion_sort less rest)

insert_by-Perm :
    (less : Part → Part → Bool) (part : Part) (l : List Part)
    → Perm (insert_by less part l) (part ∷ l)
insert_by-Perm less part [] = Perm.rfl
insert_by-Perm less part (next ∷ rest) = elim (Bool-cases (less part next)) [
  | inl t ↦ rw t Perm.rfl
  | inr f ↦
      rw f (Perm.trans (Perm.cons next (insert_by-Perm less part rest)) (Perm.swap part next rest))
]

insertion_sort-Perm : (less : Part → Part → Bool) (l : List Part) → Perm (insertion_sort less l) l
insertion_sort-Perm less [] = Perm.rfl
insertion_sort-Perm less (part ∷ rest) =
    Perm.trans (insert_by-Perm less part (insertion_sort less rest))
      (Perm.cons part (insertion_sort-Perm less rest))

module _ (less : Part → Part → Bool) (w : IsWeakOrder less) where
  insert_after :
      (first part : Part) (l : List Part)
      → IsInOrder less (first ∷ l)
      → less part first ≡ false
      → IsInOrder less (first ∷ insert_by less part l)
  insert_after first part [] o h = (h, tt)
  insert_after first part (next ∷ rest) (o, os) h = elim (Bool-cases (less part next)) [
    | inl t ↦ rw t (h, (w.asymm part next t, os))
    | inr f ↦ rw f (o, insert_after next part rest os f)
  ]

  insert_by-IsInOrder :
      (part : Part) (l : List Part) → IsInOrder less l → IsInOrder less (insert_by less part l)
  insert_by-IsInOrder part [] o = tt
  insert_by-IsInOrder part (next ∷ rest) o = elim (Bool-cases (less part next)) [
    | inl t ↦ rw t (w.asymm part next t, o)
    | inr f ↦ rw f (insert_after next part rest o f)
  ]

  insertion_sort-IsInOrder : (l : List Part) → IsInOrder less (insertion_sort less l)
  insertion_sort-IsInOrder [] = tt
  insertion_sort-IsInOrder (part ∷ rest) =
      insert_by-IsInOrder part (insertion_sort less rest) (insertion_sort-IsInOrder rest)

pub insertion_sort-IsSort : IsSort insertion_sort
insertion_sort-IsSort = record { permutes = insertion_sort-Perm; orders = insertion_sort-IsInOrder }
