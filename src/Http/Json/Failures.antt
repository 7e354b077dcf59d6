-- ===== src/Http/Json/Failures.antt =====
-- The validation of the required fields at the end of each Decode of
-- shared/pkg/openapi/order/v1/oas_json_gen.go: the fields that are reported as missing.
pub mod Bits
pub mod Missing
use Prim.Native.Nat.{bit_and, bit_xor}
use Prim.Native.String.{◌++◌ as text_append}
use ms_ex.Prelude.{
  ℕ, zero, suc, ◌+◌, ◌*◌, ◌/◌, ◌%◌, ◌^◌, String, Bool, true, false, Option, none, some, List, [],
  ◌∷◌, ◌++◌, ◌==◌, ltb, if◌then◌else◌,
}

-- bits.OnesCount8 and bits.TrailingZeros8, over the `width` lowest bits.
unfoldable pub ones_count : ℕ → ℕ → ℕ
ones_count zero x = 0
ones_count (suc width) x = x % 2 + ones_count width (x / 2)

unfoldable pub trailing_zeros : ℕ → ℕ → ℕ
trailing_zeros zero x = 0
trailing_zeros (suc width) x =
    let rest = trailing_zeros width (x / 2) in if x % 2 == 1 then 0 else suc rest

-- `result &^= 1 << bitIdx`
unfoldable pub reset_bit : ℕ → ℕ → ℕ
reset_bit result bit_idx = bit_xor result (bit_and result (2 ^ bit_idx))

abbrev pub name_at : List String → ℕ → Option String
name_at [] n = none
name_at (name ∷ names) zero = some name
name_at (name ∷ names) (suc n) = name_at names n

abbrev digit : ℕ → String
digit n = elim (name_at ("0" ∷ "1" ∷ "2" ∷ "3" ∷ "4" ∷ "5" ∷ "6" ∷ "7" ∷ "8" ∷ "9" ∷ []) n) [
  | none ↦ ""
  | some d ↦ d
]

-- strconv.Itoa of a number below 100.
abbrev itoa : ℕ → String
itoa n = if ltb n 10 then digit n else text_append (digit (n / 10)) (digit (n % 10))

-- `names` is the table jsonFieldsNameOf... of the type.
unfoldable pub field_name : List String → ℕ → String
field_name names field_idx = elim (name_at names field_idx) [
  | none ↦ itoa field_idx
  | some name ↦ name
]

-- The loop over the `missed` bits of `result`, for the byte with the fields from `base` on.
unfoldable pub missed_loop : List String → ℕ → ℕ → ℕ → List String
unfolding field_name
missed_loop names base zero result = []
missed_loop names base (suc missed) result =
    let bit_idx = trailing_zeros 8 result in
    field_name names (base + bit_idx) ∷ missed_loop names base missed (reset_bit result bit_idx)

abbrev pub mask_failures : List String → ℕ → ℕ → ℕ → List String
mask_failures names base mask bits =
    let result = bit_xor (bit_and bits mask) mask in
    if result == 0 then [] else missed_loop names base (ones_count 8 result) result

-- The loop over the masks, with `bits` for requiredBitSet: the names of the FieldErrors.
unfoldable pub failures : List String → ℕ → List ℕ → List ℕ → List String
unfolding missed_loop ones_count trailing_zeros reset_bit
failures names i [] bits = []
failures names i (mask ∷ masks) [] = []
failures names i (mask ∷ masks) (b ∷ bits) =
    mask_failures names (i * 8) mask b ++ failures names (i + 1) masks bits

-- `len(failures) > 0` does not hold.
abbrev pub no_failures : List String → Bool
no_failures [] = true
no_failures (name ∷ names) = false
