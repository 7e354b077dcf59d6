-- ===== src/Inventory/Repository/Memory.antt =====
-- inventory/pkg/repository/memory.go.
use ms_ex.Prelude.{String, ℤ, pos, Option, none, some, List, [], ◌∷◌, Table, lookup, insert}
use ms_ex.Errors.{sentinel, Result, ok, err, inventory_repository_not_found}
use ms_ex.External.{Uuid, Time, Libs}
use ms_ex.Wire.{PartType, part_type_hull, part_type_engine, part_type_shield, part_type_weapon}
use ms_ex.Inventory.Repository.{Part}

abbrev pub found : Option Part → Result Part
found none = err (sentinel inventory_repository_not_found)
found (some part) = ok part

unfoldable pub get_part : Table Part → Uuid → Result Part
get_part parts id = found (lookup id parts)

-- The range over the map, in the order of the argument `order`.
unfoldable pub list_parts : (Table Part → List Part) → Table Part → Result (List Part)
list_parts order parts = ok (order parts)

abbrev pub seed_part : String → String → String → ℤ → PartType → ℤ → Time → Part
seed_part uuid name description price part_type stock now = record {
  uuid = uuid;
  name = name;
  description = description;
  price = price;
  part_type = part_type;
  stock_quantity = stock;
  created_at = now;
}

-- The literal of NewMemoryRepository.
unfoldable pub seed : Time → List Part
seed now =
    seed_part "550e8400-e29b-41d4-a716-446655440001" "Aluminum Hull"
      "Lightweight hull for small ships" (pos 500000) part_type_hull (pos 10) now
    ∷ seed_part "550e8400-e29b-41d4-a716-446655440002" "Titanium Hull"
        "Durable hull for medium ships" (pos 1500000) part_type_hull (pos 5) now
    ∷ seed_part "550e8400-e29b-41d4-a716-446655440003" "Ion Engine C" "Basic class C ion engine"
        (pos 300000) part_type_engine (pos 8) now
    ∷ seed_part "550e8400-e29b-41d4-a716-446655440004" "Ion Engine B" "Improved class B ion engine"
        (pos 800000) part_type_engine (pos 3) now
    ∷ seed_part "550e8400-e29b-41d4-a716-446655440005" "Energy Shield" "Standard energy shield"
        (pos 400000) part_type_shield (pos 6) now
    ∷ seed_part "550e8400-e29b-41d4-a716-446655440006" "Laser Cannon" "Precision laser cannon"
        (pos 250000) part_type_weapon (pos 7) now
    ∷ seed_part "550e8400-e29b-41d4-a716-446655440007" "Plasma Hull"
        "Experimental hull (out of stock)" (pos 2000000) part_type_hull (pos 0) now
    ∷ []

-- Each part under uuid.MustParse of its id; `none` where MustParse panics.
unfoldable pub index_parts : Libs → List Part → Option (Table Part)
index_parts L [] = some []
index_parts L (part ∷ parts) = elim (L.uuid_parse part.uuid) [
  | none ↦ none
  | some id ↦ elim (index_parts L parts) [ none ↦ none | some table ↦ some (insert id part table) ]
]

unfoldable pub new_memory_repository : Libs → Time → Option (Table Part)
unfolding seed index_parts
new_memory_repository L now = index_parts L (seed now)
