-- ===== src/Http/Router/Prefix.antt =====
-- The byte tests of the generated router: a first byte with a constant prefix, and the next slash.
use Prim.Native.Char.{code}
use ms_ex.Prelude.{
  ℕ, String, ◌≡◌, ◌≢◌, refl, ap, Option, none, some, List, [], ◌∷◌, ◌++◌, All, arith, ◌==◌, ==_iff,
  ==_refl, Bool-cases, inl, inr, ◌⊎◌, if◌then◌else◌,
}

abbrev pub Bytes : Type 0
Bytes = List ℕ

-- The bytes of an ASCII text.
abbrev pub bytes : String → Bytes
bytes String.[] = []
bytes (String.◌∷◌ c s) = code c ∷ bytes s

-- `if l := len(p); len(elem) >= l && elem[0:l] == p { elem = elem[l:] }`
unfoldable pub strip_prefix : Bytes → Bytes → Option Bytes
strip_prefix [] elem = some elem
strip_prefix (p ∷ ps) [] = none
strip_prefix (p ∷ ps) (b ∷ bs) = if p == b then strip_prefix ps bs else none

-- `switch elem[0] { case c: ... }` around it; no case for an empty `elem`.
unfoldable pub case_prefix : ℕ → Bytes → Bytes → Option Bytes
unfolding strip_prefix
case_prefix c p [] = none
case_prefix c p (b ∷ bs) = if b == c then strip_prefix p (b ∷ bs) else none

-- `idx := strings.IndexByte(elem, '/'); if idx < 0 { idx = len(elem) }`, then elem[:idx], elem[idx:].
unfoldable pub index_slash : Bytes → Bytes × Bytes
index_slash [] = ([], [])
index_slash (b ∷ bs) =
    let found = index_slash bs in if b == b'/' then ([], b ∷ bs) else (b ∷ found.0, found.1)

abbrev pub NoSlash : Bytes → Type 0
NoSlash = All (λ b. b ≢ b'/')

-- Nothing, or a slash with something behind it.
abbrev pub AtSlash : Bytes → Type 0
AtSlash bs = (bs ≡ []) ⊎ ((rest : Bytes) × (bs ≡ b'/' ∷ rest))

pub strip_prefix-append : (p rest : Bytes) → strip_prefix p (p ++ rest) ≡ some rest
unfolding strip_prefix
strip_prefix-append [] rest = refl
strip_prefix-append (b ∷ p) rest = rw (==_refl b) (strip_prefix-append p rest)

pub strip_prefix-some :
    (p elem : Bytes) {rest : Bytes} → strip_prefix p elem ≡ some rest → elem ≡ p ++ rest
unfolding strip_prefix
strip_prefix-some [] elem h = cc
strip_prefix-some (p ∷ ps) [] h = cc
strip_prefix-some (p ∷ ps) (b ∷ bs) {rest} h = ground (arith, strip_prefix-some ps bs {rest = rest})

pub case_prefix-append :
    (c : ℕ) (p rest : Bytes) → case_prefix c (c ∷ p) (c ∷ (p ++ rest)) ≡ some rest
unfolding case_prefix
case_prefix-append c p rest = rw (==_refl c) (strip_prefix-append p rest)

pub case_prefix-some :
    (c : ℕ) (p elem : Bytes) {rest : Bytes} → case_prefix c p elem ≡ some rest → elem ≡ p ++ rest
unfolding case_prefix
case_prefix-some c p [] h = cc
case_prefix-some c p (b ∷ bs) h = strip_prefix-some p (b ∷ bs) (ground arith)

pub index_slash-append :
    (arg rest : Bytes) → NoSlash arg → AtSlash rest → index_slash (arg ++ rest) ≡ (arg, rest)
unfolding index_slash
index_slash-append [] rest h (inl e) = rw e refl
index_slash-append [] rest h (inr (tail, e)) = rw e refl
index_slash-append (b ∷ arg) rest (here, others) at =
    ground (arith, here, index_slash-append arg rest others at)

pub index_slash_split :
    (elem : Bytes)
    → (elem ≡ (index_slash elem).0 ++ (index_slash elem).1)
      × NoSlash (index_slash elem).0
      × AtSlash (index_slash elem).1
unfolding index_slash
index_slash_split [] = (refl, tt, inl refl)
index_slash_split (b ∷ bs) = elim (Bool-cases (b == b'/')) [
  | inl slash ↦ rw slash (refl, tt, inr (bs, ap (λ x. x ∷ bs) ((==_iff b b'/').0 slash)))
  | inr other ↦
      let (e, no_slash, at) = index_slash_split bs in
      rw other (ap (λ x. b ∷ x) e, ((λ k. cc ((==_iff b b'/').1 k, other)), no_slash), at)
]
