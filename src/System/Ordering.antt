-- ===== src/System/Ordering.antt =====
-- POST /api/v1/orders through the order and inventory services.
use Prim.Native.String.{◌++◌ as concat}
use ms_ex.Prelude.{
  String, ℤ, pos, ◌+ℤ◌, ◌≤ℤ◌, wrap_int64, ◌≡◌, refl, ap, subst, ◌∙◌, Option, none, some, List, [],
  ◌∷◌, ◌++◌, map, All, arith, IsInt64, zero-+ℤ,
}
use mathlib.Core.List.{map-append}
use ms_ex.Errors.{
  sentinel, with_detail, status, Result, ok, err, is, error_text, inventory_repository_not_found,
  part_not_found, component_not_found,
}
use ms_ex.External.{Uuid, Time, Libs, LibLaws, not_found}
use ms_ex.Wire.{ProtoPart, part_type_unspecified}
use ms_ex.Inventory.Repository.{Part}
use ms_ex.Inventory.Service as InventoryService
use ms_ex.Inventory.Service.Lookup.{AllResolved, list_parts_by_uuids, list_parts_first_error}
use ms_ex.Inventory.Api as InventoryApi
use ms_ex.Inventory.Api.{to_proto, to_status_err}
use ms_ex.Order.Service.{
  World, CreateOrderInput, component_uuids, checked_parts, list_parts_error, list_parts_call,
  new_order, send_list_parts, save_order, create_order,
}
use ms_ex.Order.Service.Creating.{parts_request}
use ms_ex.Order.Service.Pricing.{sum_prices, InStock, price_loop_total, price_loop_out}
use ms_ex.Order.Api as OrderApi
use ms_ex.Order.Api.{answers, create_order_input, create_order_reply}
use ms_ex.Http.Schemas.{CreateOrderRequest, create_order_not_found, create_order_conflict}
use ms_ex.System.{Deployment, order_service}

-- The exact sum of the catalog prices, and the stock test on a part of the catalog.
abbrev pub catalog_total : List Part → ℤ
catalog_total [] = pos 0
catalog_total (part ∷ parts) = part.price +ℤ catalog_total parts

abbrev pub IsAvailable : Part → Type 0
IsAvailable part = pos 1 ≤ℤ part.stock_quantity

sum_prices-to_proto : (parts : List Part) → sum_prices (map to_proto parts) ≡ catalog_total parts
unfolding to_proto
sum_prices-to_proto [] = refl
sum_prices-to_proto (part ∷ parts) = ap (λ t. part.price +ℤ t) (sum_prices-to_proto parts)

InStock-to_proto : (parts : List Part) → All IsAvailable parts → All InStock (map to_proto parts)
unfolding to_proto
InStock-to_proto [] h = tt
InStock-to_proto (part ∷ parts) (here, rest) = (here, InStock-to_proto parts rest)

-- There is always a first component, the hull.
component_uuids-cons :
    (L : Libs) (input : CreateOrderInput)
    → (raws : List String) × (component_uuids L input ≡ L.uuid_string input.hull_uuid ∷ raws)
unfolding component_uuids
component_uuids-cons L input = from input.shield_uuid input.weapon_uuid
  where
    from :
        (shield weapon : Option Uuid)
        → (raws : List String) × (component_uuids L
              (record input { shield_uuid = shield; weapon_uuid = weapon })
            ≡ L.uuid_string input.hull_uuid ∷ raws)
    from none none = (_, refl)
    from none (some w) = (_, refl)
    from (some s) none = (_, refl)
    from (some s) (some w) = (_, refl)

module _ {R : Type 0} (L : Libs) (d : Deployment R) where
  -- The answer of the inventory server to the order service.
  abbrev inventory_answer : CreateOrderInput → Result (List ProtoPart)
  inventory_answer input = InventoryApi.list_parts L d.catalog d.sort_slice (parts_request L input)

  answer_resolved :
      (input : CreateOrderInput) (parts : List Part)
      → AllResolved L d.catalog (component_uuids L input) parts
      → inventory_answer input ≡ ok (map to_proto parts)
  unfolding InventoryApi.list_parts
  answer_resolved input parts all =
      let (raws, e) = component_uuids-cons L input in
      let all' = subst (λ us. AllResolved L d.catalog us parts) e all in
      ap (InventoryApi.parts_response L d.catalog) (
        ap (InventoryService.list_parts L d.catalog d.sort_slice part_type_unspecified) e
        ∙ (list_parts_by_uuids L d.catalog d.sort_slice part_type_unspecified _ raws parts).1 all')

  answer_missing :
      (laws : LibLaws L) (input : CreateOrderInput) (before : List String) (parts : List Part)
      (missing : Uuid) (after : List String)
      → component_uuids L input ≡ before ++ L.uuid_string missing ∷ after
      → AllResolved L d.catalog before parts
      → d.catalog.get_part missing ≡ err (sentinel inventory_repository_not_found)
      → inventory_answer input
        ≡ err (status not_found (concat "part not found" (concat ": " (L.uuid_string missing))))
  unfolding InventoryApi.list_parts to_status_err InventoryService.resolve
      InventoryService.get_error is error_text
  answer_missing laws input before parts missing after split resolved lacks =
      let unresolved : InventoryService.resolve L d.catalog (L.uuid_string missing)
          ≡ err (with_detail (sentinel part_not_found) (L.uuid_string missing)) =
        rw (InventoryService.resolve, laws.parse_string, lacks) refl in
      ap (InventoryApi.parts_response L d.catalog) (
        ap (InventoryService.list_parts L d.catalog d.sort_slice part_type_unspecified) split
        ∙ list_parts_first_error L d.catalog d.sort_slice part_type_unspecified before parts
            (L.uuid_string missing) after resolved unresolved)

  checked_not_found :
      (laws : LibLaws L) (message : String)
      → checked_parts L (err (status not_found message))
        ≡ err (with_detail (sentinel component_not_found) message)
  unfolding checked_parts list_parts_error
  checked_not_found laws message = ap err (rw (list_parts_error, laws.from_status) refl)

  -- Where every component of the input resolves to a part of the catalog that is in stock,
  -- CreateOrder against the inventory server comes to saving a new pending order priced at the sum
  -- of the catalog prices as an int64, after one call of the inventory service.
  pub create_order_priced :
      (id : Uuid) (now : Time) (input : CreateOrderInput) (w : World R) (parts : List Part)
      → AllResolved L d.catalog (component_uuids L input) parts
      → All IsAvailable parts
      → create_order L (order_service L d) id now input w
        ≡ save_order L
            (order_service L d)
            (new_order id now input (wrap_int64 (catalog_total parts)))
            (record w { calls = list_parts_call (parts_request L input) ∷ w.calls })
  unfolding create_order send_list_parts order_service checked_parts
  create_order_priced id now input w parts all available =
      let zero_fits : IsInt64 (pos 0) = omega arith in
      let priced =
        price_loop_total (pos 0) (map to_proto parts) zero_fits
          (InStock-to_proto parts available) in
      rw
        (
          answer_resolved input parts all,
          priced,
          zero-+ℤ (sum_prices (map to_proto parts)),
          sum_prices-to_proto parts,
        )
        refl

  -- Where the catalog lacks a component and all components before it resolve, the handler of
  -- CreateOrder answers 404 and names that component, nothing is stored, and one call of the
  -- inventory service was sent.
  pub create_order_missing :
      (laws : LibLaws L) (id : Uuid) (now : Time) (req : CreateOrderRequest) (w : World R)
      (before : List String) (parts : List Part) (missing : Uuid) (after : List String)
      → component_uuids L (create_order_input req) ≡ before ++ L.uuid_string missing ∷ after
      → AllResolved L d.catalog before parts
      → d.catalog.get_part missing ≡ err (sentinel inventory_repository_not_found)
      → OrderApi.create_order L (order_service L d) id now req w ≡ (
        answers (
            create_order_not_found (record {
              code = pos 404;
              message =
                  concat "component not found"
                    (concat ": " (concat "part not found" (concat ": " (L.uuid_string missing))));
            })),
        record w { calls = list_parts_call (parts_request L (create_order_input req)) ∷ w.calls },
      )
  unfolding OrderApi.create_order create_order send_list_parts order_service error_text is
  create_order_missing laws id now req w before parts missing after split resolved lacks =
      let answer =
        answer_missing laws (create_order_input req) before parts missing after split resolved
          lacks in
      rw (answer, checked_not_found laws _) refl

  -- Where all components resolve and a part is out of stock while those before it are not, the
  -- handler of CreateOrder answers 409 and names that part, nothing is stored, and one call of the
  -- inventory service was sent.
  pub create_order_out_of_stock :
      (id : Uuid) (now : Time) (req : CreateOrderRequest) (w : World R) (before : List Part)
      (part : Part) (after : List Part)
      → AllResolved L d.catalog
          (component_uuids L (create_order_input req))
          (before ++ part ∷ after)
      → All IsAvailable before
      → ¬ IsAvailable part
      → OrderApi.create_order L (order_service L d) id now req w ≡ (
        answers (
            create_order_conflict (record {
              code = pos 409;
              message = concat "component out of stock" (concat ": " part.uuid);
            })),
        record w { calls = list_parts_call (parts_request L (create_order_input req)) ∷ w.calls },
      )
  unfolding OrderApi.create_order create_order send_list_parts order_service checked_parts to_proto
      error_text is
  create_order_out_of_stock id now req w before part after resolved available out =
      rw
        (
          answer_resolved (create_order_input req) (before ++ part ∷ after) resolved,
          map-append,
          price_loop_out (pos 0) (map to_proto before) (to_proto part) (map to_proto after)
              (InStock-to_proto before available) out,
        )
        refl
