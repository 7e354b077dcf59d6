-- ===== src/Order/Concurrent/Alone.antt =====
-- A request that no other overlaps with.
use ms_ex.Prelude.{ℕ, zero, suc, ◌≡◌, refl, pos}
use ms_ex.Errors.{Result, ok, err, ◌>>=◌ as bind}
use ms_ex.External.{Uuid, Time, Libs}
use ms_ex.Action.{Action, continue}
use ms_ex.Wire.{part_type_unspecified}
use ms_ex.Order.Data.{Order, PaymentMethod}
use ms_ex.Order.Service.{
  World, Service, CreateOrderInput, component_uuids, pay_request, price_loop, new_order,
  parse_transaction, require_pending, paid_with, cancelled, send_list_parts, send_pay_order,
  save_order, charge, create_order, get_order, pay_order, cancel_order,
}
use ms_ex.Order.Concurrent.{
  Request, creating, storing, getting, paying, charging, cancelling, saving, finished, or_finish,
  advance, serve,
}

module _ {R : Type 0} (L : Libs) (svc : Service R) (drawn : Uuid) (now : Time) where
  abbrev done : Result Order × World R → Request × World R
  done (r, w) = (finished r, w)

  serve-finished :
      (n : ℕ) (r : Result Order) (w : World R)
      → serve L svc drawn now n (finished r) w ≡ (finished r, w)
  unfolding serve advance
  serve-finished zero r w = refl
  serve-finished (suc n) r w = serve-finished n r w

  -- A chain that the rest of the request goes on with is served as the chain of the rest.
  module _ {A : Type 0} (n : ℕ) (w : World R) (rest : A → Request)
      (next : A → Action (World R) Order)
      (same : (a : A) → serve L svc drawn now n (rest a) w ≡ done (next a w)) where
    serve-or_finish :
        (r : Result A) → serve L svc drawn now n (or_finish r rest) w ≡ done (continue r next w)
    serve-or_finish (err e) = serve-finished n (err e) w
    serve-or_finish (ok a) = same a

    serve-or_finish-bind :
        {B : Type 0} (r : Result B) (check : B → Result A)
        → serve L svc drawn now n (or_finish (bind r check) rest) w
          ≡ done (continue r (λ b. continue (check b) next) w)
    serve-or_finish-bind (err e) check = serve-finished n (err e) w
    serve-or_finish-bind (ok b) check = serve-or_finish (check b)

  serve-saving :
      (order : Order) (w : World R)
      → serve L svc drawn now 1 (saving order) w ≡ done (save_order L svc order w)
  unfolding serve advance
  serve-saving order w = refl

  serve-charging :
      (method : PaymentMethod) (order : Order) (w : World R)
      → serve L svc drawn now 2 (charging method order) w ≡ done (charge L svc method order w)
  unfolding serve advance charge
  serve-charging method order w =
      let w' = (send_pay_order L svc (pay_request L order method) w).1 in
      serve-or_finish-bind 1 w' (λ t. saving (paid_with t method order))
        (λ t. save_order L svc (paid_with t method order))
        (λ t. serve-saving (paid_with t method order) w')
        (send_pay_order L svc (pay_request L order method) w).0 (parse_transaction L)

  serve-paying :
      (id : Uuid) (method : PaymentMethod) (w : World R)
      → serve L svc drawn now 3 (paying id method) w ≡ done (pay_order L svc id method w)
  unfolding serve advance pay_order get_order
  serve-paying id method w =
      serve-or_finish-bind 2 w (charging method) (charge L svc method)
        (λ order. serve-charging method order w) (get_order L svc id w).0 (require_pending L id)

  serve-cancelling :
      (id : Uuid) (w : World R)
      → serve L svc drawn now 2 (cancelling id) w ≡ done (cancel_order L svc id w)
  unfolding serve advance cancel_order get_order
  serve-cancelling id w =
      serve-or_finish-bind 1 w (λ order. saving (cancelled order))
        (λ order. save_order L svc (cancelled order)) (λ order. serve-saving (cancelled order) w)
        (get_order L svc id w).0 (require_pending L id)

  serve-creating :
      (input : CreateOrderInput) (w : World R)
      → serve L svc drawn now 2 (creating input) w ≡ done (create_order L svc drawn now input w)
  unfolding serve advance create_order
  serve-creating input w =
      let sent =
        send_list_parts L svc
          (record { part_type = part_type_unspecified; uuids = component_uuids L input }) w in
      serve-or_finish-bind 1 sent.1 (storing input)
        (λ total. save_order L svc (new_order drawn now input total)) (λ total. refl) sent.0
        (price_loop (pos 0))

  -- A request that is served turn by turn with no other request in between comes to what the
  -- operation does in one step: two turns for CreateOrder, one for GetOrder, three for PayOrder and
  -- two for CancelOrder are enough, on every branch, with the same world after it.
  serve_alone :
      (id : Uuid) (method : PaymentMethod) (input : CreateOrderInput) (w : World R)
      → (serve L svc drawn now 2 (creating input) w ≡ done (create_order L svc drawn now input w))
        × (serve L svc drawn now 1 (getting id) w ≡ done (get_order L svc id w))
        × (serve L svc drawn now 3 (paying id method) w ≡ done (pay_order L svc id method w))
        × (serve L svc drawn now 2 (cancelling id) w ≡ done (cancel_order L svc id w))
  unfolding serve advance
  serve_alone id method input w =
      (serve-creating input w, refl, serve-paying id method w, serve-cancelling id w)
