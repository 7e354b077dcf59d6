-- ===== src/Prelude/Maps.antt =====
-- Go maps with keys compared as numbers: an association list whose first entry for a key counts.
use mathlib.Core.Path.{◌≡◌, refl}
use mathlib.Core.Option.{Option, none, some}
use mathlib.Core.List.{List, [], ◌∷◌}
use Prim.Native.Nat.{ℕ}
use native.Mathlib.Omega.{arith}
use ms_ex.Prelude.Tests.{◌==◌, if◌then◌else◌, ==_refl}

abbrev pub Table {ℓ} : Type ℓ → Type ℓ
Table V = List (ℕ × V)

module _ {ℓ} {V : Type ℓ} where
  unfoldable pub lookup : ℕ → Table V → Option V
  lookup id [] = none
  lookup id ((key, value) ∷ table) = if key == id then some value else lookup id table

  -- The entry with the key, if there is one, gives its place to the new one.
  unfoldable pub insert : ℕ → V → Table V → Table V
  insert id new [] = (id, new) ∷ []
  insert id new ((key, value) ∷ table) =
      if key == id then (id, new) ∷ table else (key, value) ∷ insert id new table

  pub lookup-insert :
      (id other : ℕ) (new : V) (table : Table V)
      → lookup other (insert id new table) ≡ (if id == other then some new else lookup other table)
  unfolding lookup insert
  lookup-insert id other new [] = refl
  lookup-insert id other new ((key, value) ∷ table) =
      ground (arith, lookup-insert id other new table)

  pub lookup-insert_self :
      (id : ℕ) (new : V) (table : Table V) → lookup id (insert id new table) ≡ some new
  lookup-insert_self id new table = simp (lookup-insert, ==_refl)
