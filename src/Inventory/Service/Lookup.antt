-- ===== src/Inventory/Service/Lookup.antt =====
-- What the lookups of inventory/pkg/service/service.go by id return.
use ms_ex.Inventory.Service.{SortSlice}
use ms_ex.Prelude.{
  String, ◌≡◌, ◌≢◌, refl, sym, ap, ◌∙◌, ◌↔◌, List, [], ◌∷◌, ◌++◌, arith, str_eq, str_eq_iff, false,
}
use mathlib.Core.List.{append-nil, append_assoc}
use ms_ex.Errors.{Error, Result, ok, err, ◌>>=◌, bind-eq-ok}
use ms_ex.External.{Libs}
use ms_ex.Wire.{PartType}
use ms_ex.Inventory.Repository.{Part, Repository}
use ms_ex.Inventory.Service.{resolve, get_part, uuids_loop, list_parts}

module _ (L : Libs) (repo : Repository) where
  -- One part for each id, in order, each the one that the id resolves to.
  abbrev pub AllResolved : List String → List Part → Type 0
  AllResolved [] [] = Unit
  AllResolved (raw ∷ raws) (part ∷ parts) = (resolve L repo raw ≡ ok part) × AllResolved raws parts
  AllResolved _ _ = ⊥

  uuids_loop_resolved :
      (acc : List Part) (raws : List String) (parts : List Part)
      → AllResolved raws parts
      → uuids_loop L repo acc raws ≡ ok (acc ++ parts)
  unfolding uuids_loop
  uuids_loop_resolved acc [] [] h = ap ok (sym (append-nil acc))
  uuids_loop_resolved acc (raw ∷ raws) (part ∷ parts) (here, rest) = rw here (
      uuids_loop_resolved (acc ++ part ∷ []) raws parts rest
      ∙ ap ok (append_assoc acc (part ∷ []) parts))
  uuids_loop_resolved acc [] (part ∷ parts) h = absurd h
  uuids_loop_resolved acc (raw ∷ raws) [] h = absurd h

  uuids_loop_ok :
      (acc : List Part) (raws : List String) {all : List Part}
      → uuids_loop L repo acc raws ≡ ok all
      → (parts : List Part) × (all ≡ acc ++ parts) × AllResolved raws parts
  unfolding uuids_loop
  uuids_loop_ok acc [] {all} h = ([], cc (h, append-nil acc), tt)
  uuids_loop_ok acc (raw ∷ raws) h =
      let (part, here, k) = bind-eq-ok (resolve L repo raw) _ h in
      let (parts, e, rest) = uuids_loop_ok (acc ++ part ∷ []) raws k in
      (part ∷ parts, e ∙ append_assoc acc (part ∷ []) parts, (here, rest))

  uuids_loop_error :
      (acc : List Part) (before : List String) (parts : List Part) (bad : String)
      (after : List String) {e : Error}
      → AllResolved before parts
      → resolve L repo bad ≡ err e
      → uuids_loop L repo acc (before ++ bad ∷ after) ≡ err e
  unfolding uuids_loop
  uuids_loop_error acc [] [] bad after h failed = rw failed
  uuids_loop_error acc (raw ∷ before) (part ∷ parts) bad after (here, rest) failed =
      rw here (uuids_loop_error (acc ++ part ∷ []) before parts bad after rest failed)
  uuids_loop_error acc [] (part ∷ parts) bad after h failed = absurd h
  uuids_loop_error acc (raw ∷ before) [] bad after h failed = absurd h

  module _ (sort_slice : SortSlice) (part_type : PartType) where
    -- Asked for one or more ids, ListParts returns a list exactly if the list holds, for each id
    -- and in the order of the ids, the part that the id resolves to; the part type and the sorting
    -- play no role.
    pub list_parts_by_uuids :
        (raw : String) (raws : List String) (parts : List Part)
        → (list_parts L repo sort_slice part_type (raw ∷ raws) ≡ ok parts)
          ↔ AllResolved (raw ∷ raws) parts
    unfolding list_parts
    list_parts_by_uuids raw raws parts = (
      λ h. from_loop (uuids_loop_ok [] (raw ∷ raws) h),
      uuids_loop_resolved [] (raw ∷ raws) parts,
    )
      where
        from_loop :
            (qs : List Part) × (parts ≡ [] ++ qs) × AllResolved (raw ∷ raws) qs
            → AllResolved (raw ∷ raws) parts
        from_loop (qs, e, h) = rw e h

    -- Where all ids before one resolve and that one does not, ListParts returns the error of that
    -- one, whatever follows.
    pub list_parts_first_error :
        (before : List String) (parts : List Part) (bad : String) (after : List String) {e : Error}
        → AllResolved before parts
        → resolve L repo bad ≡ err e
        → list_parts L repo sort_slice part_type (before ++ bad ∷ after) ≡ err e
    unfolding list_parts
    list_parts_first_error [] parts bad after h failed =
        uuids_loop_error [] [] parts bad after h failed
    list_parts_first_error (raw ∷ before) parts bad after h failed =
        uuids_loop_error [] (raw ∷ before) parts bad after h failed

    abbrev pub singleton : Result Part → Result (List Part)
    singleton (ok part) = ok (part ∷ [])
    singleton (err e) = err e

    -- For an id that is not the empty text, ListParts of it alone returns what GetPart returns, as
    -- a list of one part, or the same error.
    pub list_parts-get_part :
        (raw : String)
        → raw ≢ ""
        → list_parts L repo sort_slice part_type (raw ∷ []) ≡ singleton (get_part L repo raw)
    unfolding list_parts get_part
    list_parts-get_part raw nonempty =
        let test : str_eq raw "" ≡ false = ground (arith, str_eq_iff raw "") in
        rw test (one (resolve L repo raw))
      where
        one : (r : Result Part) → (r >>= λ part. ok (part ∷ [])) ≡ singleton r
        one (ok part) = refl
        one (err e) = refl
