-- ===== src/External.antt =====
-- The third-party calls of the program, google/uuid and google.golang.org/grpc, as a record of
-- functions, and the documented behaviour that the theorems rely on.
use ms_ex.Prelude.{ℕ, String, ◌≡◌, false, Option, some, str_eq}
use ms_ex.Errors.{Error, status}

-- A UUID is 16 bytes, read as one number; the program only compares, prints and parses it.
abbrev pub Uuid : Type 0
Uuid = ℕ

-- A point in time, in nanoseconds.
abbrev pub Time : Type 0
Time = ℕ

-- google.golang.org/grpc/codes
abbrev pub invalid_argument : ℕ
invalid_argument = 3

abbrev pub not_found : ℕ
not_found = 5

abbrev pub internal : ℕ
internal = 13

pub record Libs : Type 0 where
  -- uuid.Parse, `none` on an error, and the text of that error.
  pub uuid_parse : String → Option Uuid
  pub uuid_error : String → String
  -- (UUID).String
  pub uuid_string : Uuid → String
  -- status.FromError: code and message of a status error.
  pub from_error : Error → Option (ℕ × String)
  -- (*status.Error).Error
  pub status_text : ℕ → String → String

pub record LibLaws (L : Libs) : Type 0 where
  pub parse_string : (u : Uuid) → L.uuid_parse (L.uuid_string u) ≡ some u
  pub string_nonempty : (u : Uuid) → str_eq (L.uuid_string u) "" ≡ false
  pub from_status :
      (code : ℕ) (message : String) → L.from_error (status code message) ≡ some (code, message)
