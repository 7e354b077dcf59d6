-- ===== src/Action.antt =====
-- Functions that read and change a state and return `(value, error)`: what was written before an
-- error stays written, so the state comes back beside the error too.
use ms_ex.Prelude.{◌≡◌, refl, Option, none, some}
use ms_ex.Errors.{Error, Result, ok, err}

abbrev pub Action {ℓ} : Type ℓ → Type ℓ → Type ℓ
Action S A = S → Result A × S

module _ {ℓ} {S A : Type ℓ} where
  abbrev pub pure : A → Action S A
  pure a s = (ok a, s)

  abbrev pub lift : Result A → Action S A
  lift r s = (r, s)

abbrev pub continue {ℓ} : {S A B : Type ℓ} → Result A → (A → Action S B) → Action S B
continue (ok a) f s = f a s
continue (err e) f s = (err e, s)

infixl 5 ◌>>=◌ ◌>>◌
abbrev pub ◌>>=◌ {ℓ} : {S A B : Type ℓ} → Action S A → (A → Action S B) → Action S B
◌>>=◌ m f s = continue (m s).0 f (m s).1

abbrev pub ◌>>◌ {ℓ} : {S A B : Type ℓ} → Action S A → Action S B → Action S B
m >> n = m >>= λ _. n

-- A returned `error`, where `none` is nil.
abbrev pub as_result {ℓ} : {A : Type ℓ} → A → Option Error → Result A
as_result a none = ok a
as_result a (some e) = err e

module _ {ℓ} {S A B : Type ℓ} where
  pub continue-eq-ok :
      (r : Result A) (f : A → Action S B) (s : S) {b : B}
      → (continue r f s).0 ≡ ok b
      → (a : A) × (r ≡ ok a) × ((f a s).0 ≡ ok b) × (continue r f s ≡ f a s)
  continue-eq-ok (ok a) f s h = (a, refl, h, refl)
  continue-eq-ok (err e) f s h = cc

  -- Inversion of a chain that returned a value.
  pub bind-eq-ok :
      (m : Action S A) (f : A → Action S B) (s : S) {b : B}
      → ((m >>= f) s).0 ≡ ok b
      → (a : A) × ((m s).0 ≡ ok a) × ((f a (m s).1).0 ≡ ok b) × ((m >>= f) s ≡ f a (m s).1)
  bind-eq-ok m f s h = continue-eq-ok (m s).0 f (m s).1 h
