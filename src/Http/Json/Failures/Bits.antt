-- ===== src/Http/Json/Failures/Bits.antt =====
-- The loop over the bits of a byte visits the set bits, in order.
use ms_ex.Prelude.{
  ℕ, zero, suc, ◌+◌, ◌/◌, ◌%◌, ◌<◌, String, ◌≡◌, refl, ap, ◌∙◌, Bool, true, false, ◌&&◌, List, [],
  ◌∷◌, map, arith, ◌==◌, ==_iff, if◌then◌else◌,
}
use ms_ex.Http.Json.Failures.{ones_count, trailing_zeros, reset_bit, field_name, missed_loop}

-- The numbers of the set bits among the `width` lowest, which start at `k`.
abbrev pub set_bits : ℕ → ℕ → ℕ → List ℕ
set_bits zero k x = []
set_bits (suc width) k x =
    let rest = set_bits width (suc k) (x / 2) in if x % 2 == 1 then k ∷ rest else rest

-- The bits that the loop visits.
unfoldable pub visited : ℕ → ℕ → List ℕ
visited zero result = []
visited (suc missed) result =
    let bit_idx = trailing_zeros 8 result in bit_idx ∷ visited missed (reset_bit result bit_idx)

-- What is left of the byte behind the loop.
unfoldable pub left_over : ℕ → ℕ → ℕ
left_over zero result = result
left_over (suc missed) result = left_over missed (reset_bit result (trailing_zeros 8 result))

abbrev same_numbers : List ℕ → List ℕ → Bool
same_numbers [] [] = true
same_numbers (x ∷ xs) (y ∷ ys) = x == y && same_numbers xs ys
same_numbers _ _ = false

same_numbers_sound : (xs ys : List ℕ) → same_numbers xs ys ≡ true → xs ≡ ys
same_numbers_sound [] [] h = refl
same_numbers_sound [] (y ∷ ys) h = cc
same_numbers_sound (x ∷ xs) [] h = cc
same_numbers_sound (x ∷ xs) (y ∷ ys) h = ground (arith, h, ==_iff x y, same_numbers_sound xs ys)

and_left : (a b : Bool) → a && b ≡ true → a ≡ true
and_left a b h = ground (arith, h)

and_right : (a b : Bool) → a && b ≡ true → b ≡ true
and_right a b h = ground (arith, h)

-- A test of every number below a bound.
abbrev all_below : ℕ → (ℕ → Bool) → Bool
all_below zero test = true
all_below (suc n) test = test n && all_below n test

all_below_sound :
    (n : ℕ) (test : ℕ → Bool) (x : ℕ) → all_below n test ≡ true → x < n → test x ≡ true
all_below_sound zero test x h lt = absurd (omega arith)
all_below_sound (suc n) test x h lt = ground (arith, all_below_sound n test x)

abbrev loop_test : ℕ → Bool
loop_test x =
    same_numbers (visited (ones_count 8 x) x) (set_bits 8 0 x) && left_over (ones_count 8 x) x == 0

loop_table : all_below 256 loop_test ≡ true
unfolding visited left_over ones_count trailing_zeros reset_bit
loop_table = refl

missed_loop-visited :
    (names : List String) (base missed result : ℕ)
    → missed_loop names base missed result
      ≡ map (λ k. field_name names (base + k)) (visited missed result)
unfolding missed_loop visited
missed_loop-visited names base zero result = refl
missed_loop-visited names base (suc missed) result =
    rw (missed_loop-visited names base missed (reset_bit result (trailing_zeros 8 result))) refl

-- For a byte, the loop over the missed bits, run as often as bits.OnesCount8 says, reports the name
-- of each set bit once, from the lowest to the highest, and no other, and leaves no bit set.
pub missed_loop-set_bits :
    (names : List String) (base result : ℕ)
    → result < 256
    → (missed_loop names base (ones_count 8 result) result
        ≡ map (λ k. field_name names (base + k)) (set_bits 8 0 result))
      × (left_over (ones_count 8 result) result ≡ 0)
missed_loop-set_bits names base result h =
    let tested : loop_test result ≡ true = all_below_sound 256 loop_test result loop_table h in
    let found : visited (ones_count 8 result) result ≡ set_bits 8 0 result =
      same_numbers_sound (visited (ones_count 8 result) result) (set_bits 8 0 result)
        (and_left _ _ tested) in
    (
      missed_loop-visited names base (ones_count 8 result) result
          ∙ ap (map (λ k. field_name names (base + k))) found,
      (==_iff (left_over (ones_count 8 result) result) 0).0 (and_right _ _ tested),
    )
