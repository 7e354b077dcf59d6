-- ===== src/Http/Json/Failures/Missing.antt =====
-- The required fields that an object of JSON lacks.
use ms_ex.Prelude.{
  String, ◌≡◌, Bool, true, false, List, [], ◌∷◌, ◌||◌, str_eq, str_eq_iff, arith, All, subst, sym,
  inl, inr, Bool-cases, if◌then◌else◌,
}
use ms_ex.Http.Json.{JsonObject}

-- Whether a field has the name.
abbrev pub present : String → JsonObject → Bool
present name [] = false
present name ((k, v) ∷ fields) = str_eq k name || present name fields

-- The names of the list that no field has.
abbrev pub absent : List String → JsonObject → List String
absent [] fields = []
absent (name ∷ names) fields =
    let rest = absent names fields in if present name fields then rest else name ∷ rest

-- A name is not two names.
pub other_name :
    (k name name' : String)
    → str_eq name name' ≡ false
    → str_eq k name ≡ true
    → str_eq k name' ≡ false
other_name k name name' differ h = ground (arith, differ, h, str_eq_iff k name)

-- What holds at each name of a list and at every other name holds at every name.
pub by_name :
    (names : List String) (P : String → Type 0) (k : String)
    → All P names
    → (All (λ n. str_eq k n ≡ false) names → P k)
    → P k
by_name [] P k at_names otherwise = otherwise tt
by_name (n ∷ names) P k (at_n, at_names) otherwise = elim (Bool-cases (str_eq k n)) [
  | inl e ↦ subst P (sym ((str_eq_iff k n).0 e)) at_n
  | inr e ↦ by_name names P k at_names (λ others. otherwise (e, others))
]

pub or_move : (a b c : Bool) → c || (b || a) ≡ (b || c) || a
or_move a b c = ground arith
