-- ===== src/Examples/Data.antt =====
-- Concrete libraries, parts, orders and services for the examples.
use Prim.Native.Char.{code}
use ms_ex.Prelude.{
  ℕ, zero, suc, String, ℤ, pos, ◌≡◌, refl, ap, false, Option, none, some, List, [], ◌∷◌, ◌==◌,
  if◌then◌else◌, arith, str_eq, str_eq_iff, Bool-cases, inl, inr,
}
use ms_ex.Errors.{Error, sentinel, status, Result, ok, err, inventory_repository_not_found}
use ms_ex.External.{Uuid, Libs, LibLaws}
use ms_ex.Wire.{ProtoPart, part_type_hull, part_type_engine}
use ms_ex.Inventory.Repository.{Part, Repository}
use ms_ex.Inventory.Service.{SortSlice}
use ms_ex.Order.Data.{Order, status_pending_payment, status_paid}
use ms_ex.Order.Repository.{noop}
use ms_ex.Order.Repository.Contract.{memory}
use ms_ex.Order.Repository.Memory.{Orders}
use ms_ex.Order.Service.{Call, World, Service, CreateOrderInput}
use ms_ex.Http.Schemas.{CreateOrderRequest, PayOrderRequest, OptNil}
use ms_ex.Http.Json.{to_seconds, JsonValue, str, num, JsonLib, JsonLaws}

abbrev pub dots : ℕ → String
dots zero = ""
dots (suc n) = String.◌∷◌ "." (dots n)

abbrev pub count : String → ℕ
count String.[] = 0
count (String.◌∷◌ c s) = suc (count s)

abbrev parse_text : String → Option Uuid
parse_text String.[] = none
parse_text (String.◌∷◌ c s) = if code c == 120 then some (count s) else none

abbrev code_of : Error → Option (ℕ × String)
code_of (status code message) = some (code, message)
code_of _ = none

abbrev pub libs : Libs
libs = record {
  uuid_parse = parse_text;
  uuid_error = λ s. "invalid UUID";
  uuid_string = λ u. String.◌∷◌ "x" (dots u);
  from_error = code_of;
  status_text = λ code message. message;
}

pub count-dots : (n : ℕ) → count (dots n) ≡ n
count-dots zero = refl
count-dots (suc n) = ap suc (count-dots n)

pub lib_laws : LibLaws libs
lib_laws = record {
  parse_string = λ u. ap some (count-dots u);
  string_nonempty = λ u. elim (Bool-cases (str_eq (libs.uuid_string u) "")) [
    | inr different ↦ different
    | inl equal ↦
        let e : suc (count (dots u)) ≡ 0 =
          ap count ((str_eq_iff (libs.uuid_string u) "").0 equal) in
        absurd (omega (arith, e))
  ];
  from_status = λ code message. refl;
}

-- A catalog of an aluminum hull and an ion engine in stock, and a plasma hull out of stock.
abbrev pub hull : Part
hull = record {
  uuid = "x.";
  name = "Aluminum Hull";
  description = "";
  price = pos 500000;
  part_type = part_type_hull;
  stock_quantity = pos 10;
  created_at = 0;
}

abbrev pub engine : Part
engine = record hull {
  uuid = "x..";
  name = "Ion Engine C";
  price = pos 300000;
  part_type = part_type_engine;
}

abbrev pub plasma_hull : Part
plasma_hull = record hull {
  uuid = "x...";
  name = "Plasma Hull";
  price = pos 2000000;
  stock_quantity = pos 0;
}

abbrev part_by_id : Uuid → Result Part
part_by_id id =
    if id == 1
    then ok hull
    else if id == 2
    then ok engine
    else if id == 3
    then ok plasma_hull
    else err (sentinel inventory_repository_not_found)

abbrev pub catalog : Repository
catalog = record { get_part = part_by_id; list_parts = ok (hull ∷ engine ∷ plasma_hull ∷ []) }

abbrev pub same_order : SortSlice
same_order less parts = parts

abbrev pub drawn_id : List Call → Uuid
drawn_id calls = 9

abbrev pub input_of : Uuid → CreateOrderInput
input_of id = record { hull_uuid = id; engine_uuid = 2; shield_uuid = none; weapon_uuid = none }

abbrev unset : OptNil Uuid
unset = record { value = 0; set = false; null = false }

abbrev pub request_of : Uuid → CreateOrderRequest
request_of id = record { hull_uuid = id; engine_uuid = 2; shield_uuid = unset; weapon_uuid = unset }

abbrev pub pending_order : Order
pending_order = record {
  order_uuid = 7;
  hull_uuid = 1;
  engine_uuid = 2;
  shield_uuid = none;
  weapon_uuid = none;
  total_price = pos 800000;
  transaction_uuid = none;
  payment_method = none;
  status = status_pending_payment;
  created_at = 5;
}

abbrev pub paid_order : Order
paid_order = record pending_order {
  transaction_uuid = some 9;
  payment_method = some "CARD";
  status = status_paid;
}

abbrev pub by_card : PayOrderRequest
by_card = record { payment_method = "CARD" }

abbrev pub no_orders : World Orders
no_orders = record { stored = []; calls = [] }

abbrev pub one_pending : World Orders
one_pending = record { stored = (7, pending_order) ∷ []; calls = [] }

abbrev pub one_paid : World Orders
one_paid = record { stored = (7, paid_order) ∷ []; calls = [] }

abbrev proto_part : String → ℤ → ℤ → ProtoPart
proto_part uuid price stock = record {
  uuid = uuid;
  name = "";
  description = "";
  price = price;
  part_type = part_type_hull;
  stock_quantity = stock;
  created_at = 0;
}

abbrev pub cheap_part : ProtoPart
cheap_part = proto_part "x." (pos 500000) (pos 10)

abbrev pub sold_out_part : ProtoPart
sold_out_part = proto_part "x..." (pos 2000000) (pos 0)

-- A service whose remote services always answer, over orders in memory.
abbrev pub answering : Service Orders
answering = record {
  inventory_client = λ calls request. ok (cheap_part ∷ []);
  payment_client = λ calls request. ok "x...";
  repo = memory;
  tr_manager = noop;
}

-- One whose payment service answers what is not a UUID.
abbrev pub garbling : Service Orders
garbling = record answering { payment_client = λ calls request. ok "?" }

-- One whose inventory service has no part in stock.
abbrev pub sold_out : Service Orders
sold_out = record answering { inventory_client = λ calls request. ok (sold_out_part ∷ []) }

abbrev decode_text : JsonValue → Option Uuid
decode_text (str s) = parse_text s
decode_text _ = none

abbrev decode_number : JsonValue → Option ℤ
decode_number (num n) = some n
decode_number _ = none

abbrev decode_moment : JsonValue → Option ℕ
decode_moment (num (pos n)) = some n
decode_moment _ = none

abbrev pub json : JsonLib
json = record {
  encode_uuid = λ u. str (String.◌∷◌ "x" (dots u));
  decode_uuid = decode_text;
  encode_time = λ t. num (pos (to_seconds t));
  decode_time = decode_moment;
  decode_int64 = decode_number;
  decode_int = decode_number;
}

pub json_laws : JsonLaws json
json_laws = record {
  uuid_back = λ u. ap some (count-dots u);
  uuid_value = λ u. refl;
  time_back = λ t. refl;
  int64_back = λ n h. refl;
  int_back = λ n h. refl;
}
