-- ===== src/Order/Concurrent.antt =====
-- order/pkg/service/service.go under overlapping requests. A request is what is left of one call of the
-- service; a turn takes it over its next call of the repository or of a client, up to the one behind.
pub mod Alone
pub mod Atomic
pub mod Ready
pub mod Sound
pub mod Effects
pub mod Exclusive
pub mod Races
pub mod Ending
use ms_ex.Prelude.{ℕ, zero, suc, ℤ, pos, List, [], ◌∷◌, ◌==◌, if◌then◌else◌}
use ms_ex.Errors.{Result, ok, err, ◌>>=◌}
use ms_ex.External.{Uuid, Time, Libs}
use ms_ex.Wire.{part_type_unspecified}
use ms_ex.Order.Data.{Order, PaymentMethod}
use ms_ex.Order.Service.{
  World, Service, CreateOrderInput, component_uuids, price_loop, new_order, require_pending,
  pay_request, parse_transaction, paid_with, cancelled, send_list_parts, send_pay_order, save_order,
  get_order,
}

pub data Request : Type 0 where
  -- CreateOrder, before ListParts, and before uuid.New and Save.
  creating : CreateOrderInput → Request
  storing : CreateOrderInput → ℤ → Request
  -- GetOrder
  getting : Uuid → Request
  -- PayOrder, before Get, and before the call of the payment service.
  paying : Uuid → PaymentMethod → Request
  charging : PaymentMethod → Order → Request
  -- CancelOrder, before Get.
  cancelling : Uuid → Request
  -- PayOrder and CancelOrder, before Save.
  saving : Order → Request
  finished : Result Order → Request

-- `if err != nil { return repository.Order{}, err }`
abbrev pub or_finish : {A : Type 0} → Result A → (A → Request) → Request
or_finish (err e) next = finished (err e)
or_finish (ok a) next = next a

module _ {R : Type 0} (L : Libs) (svc : Service R) (drawn : Uuid) (now : Time) where
  unfoldable pub advance : Request → World R → Request × World R
  advance (creating input) w =
      let (r, w') =
        send_list_parts L svc
          (record { part_type = part_type_unspecified; uuids = component_uuids L input }) w in
      (or_finish (r >>= price_loop (pos 0)) (storing input), w')
  advance (storing input total) w =
      let (r, w') = save_order L svc (new_order drawn now input total) w in (finished r, w')
  advance (getting id) w = let (r, w') = get_order L svc id w in (finished r, w')
  advance (paying id method) w =
      let (r, w') = get_order L svc id w in
      (or_finish (r >>= require_pending L id) (charging method), w')
  advance (charging method order) w =
      let (r, w') = send_pay_order L svc (pay_request L order method) w in
      (or_finish (r >>= parse_transaction L) (λ t. saving (paid_with t method order)), w')
  advance (cancelling id) w =
      let (r, w') = get_order L svc id w in
      (or_finish (r >>= require_pending L id) (λ order. saving (cancelled order)), w')
  advance (saving order) w = let (r, w') = save_order L svc order w in (finished r, w')
  advance (finished r) w = (finished r, w)

  -- One request alone.
  unfoldable pub serve : ℕ → Request → World R → Request × World R
  serve zero r w = (r, w)
  serve (suc n) r w = let (r', w') = advance r w in serve n r' w'

-- The service with all requests that there ever are, by number.
pub record System (R : Type 0) : Type 0 where
  pub world : World R
  pub requests : ℕ → Request

-- Which request goes on, and what uuid.New and time.Now give it.
pub record Turn : Type 0 where
  pub who : ℕ
  pub drawn : Uuid
  pub now : Time

abbrev pub update : (ℕ → Request) → ℕ → Request → ℕ → Request
update requests i r j = if i == j then r else requests j

module _ {R : Type 0} (L : Libs) (svc : Service R) where
  unfoldable pub take_turn : Turn → System R → System R
  unfolding advance
  take_turn t s =
      let (r, w) = advance L svc t.drawn t.now (s.requests t.who) s.world in
      record { world = w; requests = update s.requests t.who r }

  unfoldable pub run : List Turn → System R → System R
  unfolding take_turn
  run [] s = s
  run (t ∷ turns) s = run turns (take_turn t s)
