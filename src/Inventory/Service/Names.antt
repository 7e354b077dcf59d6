-- ===== src/Inventory/Service/Names.antt =====
-- The comparison by name of inventory/pkg/service/service.go, as an order.
use Prim.Native.Char.{code}
use Prim.Native.Nat.{Ordering, compare as compare_ℕ}
use Prim.Native.Nat.compare as compare_ℕ
use Prim.Native.String.{compare, then as first_unequal}
use Prim.Native.String.compare
use ms_ex.Prelude.{
  ℕ, zero, suc, String, ◌≡◌, ◌≢◌, refl, sym, subst, ◌∙◌, ap, Bool, true, false, List, [], ◌∷◌,
}
use ms_ex.Inventory.Repository.{Part}
use ms_ex.Inventory.Service.{is_less, by_name}

-- What package sort asks of `less`: it is a strict weak order.
pub record IsWeakOrder (less : Part → Part → Bool) : Type 0 where
  pub asymm : (a b : Part) → less a b ≡ true → less b a ≡ false
  pub at_least_trans : (a b c : Part) → less a b ≡ false → less b c ≡ false → less a c ≡ false

-- No part is `less` than the one before it, as sort.SliceIsSorted tests.
abbrev pub IsInOrder : (Part → Part → Bool) → List Part → Type 0
IsInOrder less [] = Unit
IsInOrder less (part ∷ []) = Unit
IsInOrder less (part ∷ next ∷ rest) = (less next part ≡ false) × IsInOrder less (next ∷ rest)

abbrev flipped : Ordering → Ordering
flipped Ordering.lt = Ordering.gt
flipped Ordering.eq = Ordering.eq
flipped Ordering.gt = Ordering.lt

flipped_ℕ : (m n : ℕ) → compare_ℕ n m ≡ flipped (compare_ℕ m n)
flipped_ℕ zero zero = refl
flipped_ℕ zero (suc n) = compare_ℕ.suc-zero n ∙ sym (ap flipped (compare_ℕ.zero-suc n))
flipped_ℕ (suc m) zero = compare_ℕ.zero-suc m ∙ sym (ap flipped (compare_ℕ.suc-zero m))
flipped_ℕ (suc m) (suc n) =
    compare_ℕ.suc-suc n m ∙ flipped_ℕ m n ∙ sym (ap flipped (compare_ℕ.suc-suc m n))

flipped-first_unequal :
    (a b : Ordering) → first_unequal (flipped a) (flipped b) ≡ flipped (first_unequal a b)
flipped-first_unequal Ordering.lt b = refl
flipped-first_unequal Ordering.eq b = refl
flipped-first_unequal Ordering.gt b = refl

flipped_text : (s t : String) → compare t s ≡ flipped (compare s t)
flipped_text String.[] String.[] = refl
flipped_text String.[] (String.◌∷◌ d t) =
    compare.cons-nil d t ∙ sym (ap flipped (compare.nil-cons d t))
flipped_text (String.◌∷◌ c s) String.[] =
    compare.nil-cons c s ∙ sym (ap flipped (compare.cons-nil c s))
flipped_text (String.◌∷◌ c s) (String.◌∷◌ d t) =
    compare.cons-cons d c t s
    ∙ rw (flipped_ℕ (code c) (code d), flipped_text s t)
        (flipped-first_unequal (compare_ℕ (code c) (code d)) (compare s t))
    ∙ sym (ap flipped (compare.cons-cons c d s t))

less_flipped : (o : Ordering) → is_less o ≡ true → is_less (flipped o) ≡ false
less_flipped Ordering.lt h = refl
less_flipped Ordering.eq h = refl
less_flipped Ordering.gt h = sym h

by_name_asymm : (a b : Part) → by_name a b ≡ true → by_name b a ≡ false
unfolding by_name
by_name_asymm a b h =
    ap is_less (flipped_text a.name b.name) ∙ less_flipped (compare a.name b.name) h

-- What two comparisons in a row say of the third.
abbrev Composes : Ordering → Ordering → Ordering → Type 0
Composes Ordering.eq b c = c ≡ b
Composes Ordering.gt Ordering.lt c = Unit
Composes Ordering.gt b c = c ≡ Ordering.gt
Composes Ordering.lt Ordering.eq c = c ≡ Ordering.lt
Composes Ordering.lt b c = Unit

Composes-first_unequal :
    (a b c a' b' c' : Ordering)
    → Composes a b c
    → Composes a' b' c'
    → Composes (first_unequal a a') (first_unequal b b') (first_unequal c c')
Composes-first_unequal Ordering.eq Ordering.eq c a' b' c' h h' =
    subst (λ x. Composes a' b' (first_unequal x c')) (sym h) h'
Composes-first_unequal Ordering.eq Ordering.lt c Ordering.eq b' c' h h' =
    ap (λ x. first_unequal x c') h
Composes-first_unequal Ordering.eq Ordering.lt c Ordering.lt b' c' h h' = tt
Composes-first_unequal Ordering.eq Ordering.lt c Ordering.gt b' c' h h' = tt
Composes-first_unequal Ordering.eq Ordering.gt c Ordering.eq b' c' h h' =
    ap (λ x. first_unequal x c') h
Composes-first_unequal Ordering.eq Ordering.gt c Ordering.lt b' c' h h' = tt
Composes-first_unequal Ordering.eq Ordering.gt c Ordering.gt b' c' h h' =
    ap (λ x. first_unequal x c') h
Composes-first_unequal Ordering.gt Ordering.lt c a' b' c' h h' = tt
Composes-first_unequal Ordering.gt Ordering.gt c a' b' c' h h' = ap (λ x. first_unequal x c') h
Composes-first_unequal Ordering.gt Ordering.eq c a' Ordering.lt c' h h' = tt
Composes-first_unequal Ordering.gt Ordering.eq c a' Ordering.eq c' h h' =
    ap (λ x. first_unequal x c') h
Composes-first_unequal Ordering.gt Ordering.eq c a' Ordering.gt c' h h' =
    ap (λ x. first_unequal x c') h
Composes-first_unequal Ordering.lt Ordering.lt c a' b' c' h h' = tt
Composes-first_unequal Ordering.lt Ordering.gt c a' b' c' h h' = tt
Composes-first_unequal Ordering.lt Ordering.eq c a' Ordering.lt c' h h' = tt
Composes-first_unequal Ordering.lt Ordering.eq c a' Ordering.gt c' h h' = tt
Composes-first_unequal Ordering.lt Ordering.eq c a' Ordering.eq c' h h' =
    ap (λ x. first_unequal x c') h

least_first : (b : Ordering) → Composes Ordering.lt b Ordering.lt
least_first Ordering.lt = tt
least_first Ordering.eq = refl
least_first Ordering.gt = tt

least_last : (a : Ordering) → Composes a Ordering.gt Ordering.gt
least_last Ordering.lt = tt
least_last Ordering.eq = refl
least_last Ordering.gt = refl

compare_ℕ-Composes : (m n k : ℕ) → Composes (compare_ℕ m n) (compare_ℕ n k) (compare_ℕ m k)
compare_ℕ-Composes zero zero k = refl
compare_ℕ-Composes zero (suc n) zero = rw (compare_ℕ.zero-suc n, compare_ℕ.suc-zero n) tt
compare_ℕ-Composes zero (suc n) (suc k) =
    rw (compare_ℕ.zero-suc n, compare_ℕ.suc-suc n k, compare_ℕ.zero-suc k)
      (least_first (compare_ℕ n k))
compare_ℕ-Composes (suc m) zero zero = rw (compare_ℕ.suc-zero m) refl
compare_ℕ-Composes (suc m) zero (suc k) = rw (compare_ℕ.suc-zero m, compare_ℕ.zero-suc k) tt
compare_ℕ-Composes (suc m) (suc n) zero =
    rw (compare_ℕ.suc-suc m n, compare_ℕ.suc-zero n, compare_ℕ.suc-zero m)
      (least_last (compare_ℕ m n))
compare_ℕ-Composes (suc m) (suc n) (suc k) =
    rw (compare_ℕ.suc-suc m n, compare_ℕ.suc-suc n k, compare_ℕ.suc-suc m k)
      (compare_ℕ-Composes m n k)

compare-Composes : (s t u : String) → Composes (compare s t) (compare t u) (compare s u)
compare-Composes String.[] String.[] u = refl
compare-Composes String.[] (String.◌∷◌ d t) String.[] =
    rw (compare.nil-cons d t, compare.cons-nil d t) tt
compare-Composes String.[] (String.◌∷◌ d t) (String.◌∷◌ e u) =
    rw (compare.nil-cons d t, compare.nil-cons e u)
      (least_first (compare (String.◌∷◌ d t) (String.◌∷◌ e u)))
compare-Composes (String.◌∷◌ c s) String.[] String.[] = rw (compare.cons-nil c s) refl
compare-Composes (String.◌∷◌ c s) String.[] (String.◌∷◌ e u) =
    rw (compare.cons-nil c s, compare.nil-cons e u) tt
compare-Composes (String.◌∷◌ c s) (String.◌∷◌ d t) String.[] =
    rw (compare.cons-nil d t, compare.cons-nil c s)
      (least_last (compare (String.◌∷◌ c s) (String.◌∷◌ d t)))
compare-Composes (String.◌∷◌ c s) (String.◌∷◌ d t) (String.◌∷◌ e u) =
    rw (compare.cons-cons c d s t, compare.cons-cons d e t u, compare.cons-cons c e s u)
      (Composes-first_unequal (compare_ℕ (code c) (code d)) (compare_ℕ (code d) (code e))
        (compare_ℕ (code c) (code e)) (compare s t) (compare t u) (compare s u)
        (compare_ℕ-Composes (code c) (code d) (code e)) (compare-Composes s t u))

at_least_trans_of :
    (a b c : Ordering) → Composes a b c → is_less a ≡ false → is_less b ≡ false → is_less c ≡ false
at_least_trans_of Ordering.lt b c h ha hb = cc ha
at_least_trans_of Ordering.eq b c h ha hb = ap is_less h ∙ hb
at_least_trans_of Ordering.gt Ordering.lt c h ha hb = cc hb
at_least_trans_of Ordering.gt Ordering.eq c h ha hb = ap is_less h
at_least_trans_of Ordering.gt Ordering.gt c h ha hb = ap is_less h

-- The comparison by name is a strict weak order.
pub by_name-IsWeakOrder : IsWeakOrder by_name
unfolding by_name
by_name-IsWeakOrder = record {
  asymm = by_name_asymm;
  at_least_trans = λ a b c.
      at_least_trans_of (compare a.name b.name) (compare b.name c.name) (compare a.name c.name)
        (compare-Composes a.name b.name c.name);
}

-- No name is before that of the part before it.
abbrev pub IsSortedByName : List Part → Type 0
IsSortedByName [] = Unit
IsSortedByName (part ∷ []) = Unit
IsSortedByName (part ∷ next ∷ rest) =
    (compare next.name part.name ≢ Ordering.lt) × IsSortedByName (next ∷ rest)

pub IsSortedByName-of_IsInOrder :
    (parts : List Part) → IsInOrder by_name parts → IsSortedByName parts
unfolding by_name
IsSortedByName-of_IsInOrder [] o = tt
IsSortedByName-of_IsInOrder (part ∷ []) o = tt
IsSortedByName-of_IsInOrder (part ∷ next ∷ rest) (at_least, o) =
    (λ before. cc (ap is_less before, at_least), IsSortedByName-of_IsInOrder (next ∷ rest) o)
