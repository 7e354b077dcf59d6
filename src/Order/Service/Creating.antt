-- ===== src/Order/Service/Creating.antt =====
-- CreateOrder of order/pkg/service/service.go, over any storage.
use ms_ex.Prelude.{
  ℤ, pos, zero-+ℤ, wrap_int64, IsInt64, ◌≡◌, refl, sym, ap, subst, ◌∙◌, none, List, ◌∷◌, All, arith,
}
use ms_ex.Errors.{Error, Result, ok, err}
use ms_ex.External.{Uuid, Time, Libs}
use ms_ex.Wire.{ProtoPart, ListPartsRequest, part_type_unspecified}
use ms_ex.Action.{continue, continue-eq-ok}
use ms_ex.Order.Data.{Order}
use ms_ex.Order.Repository.{View, put, Fits, IsStorage}
use ms_ex.Order.Service.{
  list_parts_call, World, Service, CreateOrderInput, component_uuids, checked_parts, price_loop,
  new_order, send_list_parts, save_order, create_order,
}
use ms_ex.Order.Service.Pricing.{sum_prices, InStock, price_loop_total, price_loop_ok}
use ms_ex.Order.Service.Saving.{SameView, save_order_ok, save_order_err, calls-save_order}

-- The one request that CreateOrder sends.
abbrev pub parts_request : Libs → CreateOrderInput → ListPartsRequest
parts_request L input = record {
  part_type = part_type_unspecified;
  uuids = component_uuids L input;
}

checked_parts_ok :
    (L : Libs) (r : Result (List ProtoPart)) {parts : List ProtoPart}
    → checked_parts L r ≡ ok parts
    → r ≡ ok parts
unfolding checked_parts
checked_parts_ok L (ok parts) h = h
checked_parts_ok L (err e) h = cc

-- What a creation that succeeded did.
pub record Created {R : Type 0} (L : Libs) (svc : Service R) (view : R → View) (id : Uuid)
    (now : Time) (input : CreateOrderInput) (w w' : World R) (o : Order) : Type 0 where
  pub parts : List ProtoPart
  pub answered : svc.inventory_client w.calls (parts_request L input) ≡ ok parts
  pub in_stock : All InStock parts
  pub result : o ≡ new_order id now input (wrap_int64 (sum_prices parts))
  pub sent : w'.calls ≡ list_parts_call (parts_request L input) ∷ w.calls
  pub written : SameView (view w'.stored) (put o (view w.stored))

zero_IsInt64 : IsInt64 (pos 0)
zero_IsInt64 = omega arith

total_of_loop :
    (parts : List ProtoPart) {total : ℤ}
    → price_loop (pos 0) parts ≡ ok total
    → total ≡ wrap_int64 (sum_prices parts)
total_of_loop parts h =
    let runs = price_loop_total (pos 0) parts zero_IsInt64 (price_loop_ok (pos 0) parts h) in
    cc (runs, h, zero-+ℤ (sum_prices parts))

module _ {R : Type 0} (L : Libs) (svc : Service R) (view : R → View)
    (storage : IsStorage svc.repo svc.tr_manager view) where
  pub create_order_ok :
      (id : Uuid) (now : Time) (input : CreateOrderInput) (w : World R) {o : Order}
      → view w.stored id ≡ none
      → (create_order L svc id now input w).0 ≡ ok o
      → Created L svc view id now input w (create_order L svc id now input w).1 o
  unfolding create_order send_list_parts
  create_order_ok id now input w {o} fresh h =
      let request = parts_request L input in
      let w' = record w { calls = list_parts_call request ∷ w.calls } in
      let (parts, checked, h', e) =
        continue-eq-ok (checked_parts L (svc.inventory_client w.calls request)) _ w' h in
      let (total, priced, h'', e') = continue-eq-ok (price_loop (pos 0) parts) _ w' h' in
      let order = new_order id now input total in
      let fits : Fits order (view w.stored order.order_uuid) =
        unfold new_order in subst (Fits order) (sym fresh) tt in
      let (result, written) = save_order_ok L svc view storage order w' h'' fits in
      let after : View = view (save_order L svc order w').1.stored in
      subst (λ p. Created L svc view id now input w p.1 o) (sym (e ∙ e'))
        (record {
          parts = parts;
          answered = checked_parts_ok L _ checked;
          in_stock = price_loop_ok (pos 0) parts priced;
          result = result ∙ ap (new_order id now input) (total_of_loop parts priced);
          sent = calls-save_order L svc view storage order w';
          written = subst (λ p. SameView after (put p (view w.stored))) (sym result) written;
        })

  -- Over a storage: if CreateOrder returns an error, no stored order changed.
  pub create_order_err :
      (id : Uuid) (now : Time) (input : CreateOrderInput) (w : World R) {e : Error}
      → (create_order L svc id now input w).0 ≡ err e
      → SameView (view (create_order L svc id now input w).1.stored) (view w.stored)
  unfolding create_order send_list_parts
  create_order_err id now input w {e} h =
      answered (checked_parts L (svc.inventory_client w.calls (parts_request L input))) h
    where
      w' : World R
      w' = record w { calls = list_parts_call (parts_request L input) ∷ w.calls }

      save : ℤ → World R → Result Order × World R
      save total = save_order L svc (new_order id now input total)

      priced :
          (r : Result ℤ)
          → (continue r save w').0 ≡ err e
          → SameView (view (continue r save w').1.stored) (view w.stored)
      priced (err _) h = λ j. refl
      priced (ok total) h = save_order_err L svc view storage (new_order id now input total) w' h

      price : List ProtoPart → World R → Result Order × World R
      price parts u = continue (price_loop (pos 0) parts) save u

      answered :
          (r : Result (List ProtoPart))
          → (continue r price w').0 ≡ err e
          → SameView (view (continue r price w').1.stored) (view w.stored)
      answered (err _) h = λ j. refl
      answered (ok parts) h = priced (price_loop (pos 0) parts) h
