-- ===== src/Errors.antt =====
-- Go's error values as the services use them: the sentinel errors that the packages declare, the
-- wrapping of `fmt.Errorf`, `errors.Is`, and results `(value, error)`.
use Prim.Native.String.{◌++◌ as concat}
use ms_ex.Prelude.{ℕ, String, ◌≡◌, refl, Bool, true, false, arith, ◌==◌}

-- The package-level `errors.New` values, each by its package and name; `no_rows` is pgx.ErrNoRows.
pub data Sentinel : Type 0 where
  order_repository_not_found inventory_repository_not_found no_rows : Sentinel
  order_not_found order_already_final component_not_found component_out_of_stock : Sentinel
  empty_uuid invalid_uuid part_not_found : Sentinel
  empty_order_uuid invalid_order_uuid unspecified_method : Sentinel

pub data Error : Type 0 where
  -- A sentinel itself.
  sentinel : Sentinel → Error
  -- fmt.Errorf("%w: %s", e, detail)
  with_detail : Error → String → Error
  -- fmt.Errorf("context: %w", e)
  with_context : String → Error → Error
  -- A gRPC status error: its code and its message.
  status : ℕ → String → Error
  -- Any other error of a library or driver, by its text.
  foreign : String → Error

-- Sentinels are compared by identity.
abbrev index : Sentinel → ℕ
index order_repository_not_found = 0
index inventory_repository_not_found = 1
index no_rows = 2
index order_not_found = 3
index order_already_final = 4
index component_not_found = 5
index component_out_of_stock = 6
index empty_uuid = 7
index invalid_uuid = 8
index part_not_found = 9
index empty_order_uuid = 10
index invalid_order_uuid = 11
index unspecified_method = 12

unfoldable pub same : Sentinel → Sentinel → Bool
same s t = index s == index t

-- errors.Is(e, target)
unfoldable pub is : Error → Sentinel → Bool
unfolding same
is (sentinel s) target = same s target
is (with_detail e detail) target = is e target
is (with_context context e) target = is e target
is (status code message) target = false
is (foreign text) target = false

unfoldable pub sentinel_text : Sentinel → String
sentinel_text order_repository_not_found = "not found"
sentinel_text inventory_repository_not_found = "not found"
sentinel_text no_rows = "no rows in result set"
sentinel_text order_not_found = "order not found"
sentinel_text order_already_final = "order is already paid or cancelled"
sentinel_text component_not_found = "component not found"
sentinel_text component_out_of_stock = "component out of stock"
sentinel_text empty_uuid = "uuid must not be empty"
sentinel_text invalid_uuid = "invalid uuid format"
sentinel_text part_not_found = "part not found"
sentinel_text empty_order_uuid = "order_uuid must not be empty"
sentinel_text invalid_order_uuid = "invalid order_uuid format"
sentinel_text unspecified_method = "payment_method must not be unspecified"

-- e.Error(); how gRPC prints a status is the argument.
unfoldable pub error_text : (ℕ → String → String) → Error → String
unfolding sentinel_text
error_text status_text (sentinel s) = sentinel_text s
error_text status_text (with_detail e detail) =
    concat (error_text status_text e) (concat ": " detail)
error_text status_text (with_context context e) =
    concat context (concat ": " (error_text status_text e))
error_text status_text (status code message) = status_text code message
error_text status_text (foreign text) = text

-- A value with a nil error, or a zero value with an error.
pub data Result {ℓ} (V : Type ℓ) : Type ℓ where
  ok : (value : V) → Result V
  err : (failure : Error) → Result V

module _ {ℓ κ} {V : Type ℓ} {W : Type κ} where
  -- `if err != nil { return zero, err }`
  infixl 5 ◌>>=◌
  abbrev pub ◌>>=◌ : Result V → (V → Result W) → Result W
  err failure >>= next = err failure
  ok value >>= next = next value

  -- Inversion of a chain that returned a value.
  pub bind-eq-ok :
      (first : Result V) (next : V → Result W) {returned : W}
      → (first >>= next) ≡ ok returned
      → (value : V) × (first ≡ ok value) × (next value ≡ ok returned)
  bind-eq-ok (err failure) next chain = cc
  bind-eq-ok (ok value) next chain = (value, refl, chain)

pub same_refl : (s : Sentinel) → same s s ≡ true
unfolding same
same_refl s = ground arith

is_runs : is (with_detail (sentinel part_not_found) "x") part_not_found ≡ true
unfolding is
is_runs = refl
