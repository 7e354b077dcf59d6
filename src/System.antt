-- ===== src/System.antt =====
-- The three services together, as order/cmd/main.go and order/tests/api_test.go wire them: the order
-- service calls the gRPC servers of the other two. The transport delivers requests, responses and
-- status errors as they are.
pub mod Ordering
pub mod Paying
use ms_ex.Inventory.Service.{SortSlice}
use ms_ex.Prelude.{String, List}
use ms_ex.External.{Uuid, Libs}
use ms_ex.Order.Repository.{TrManager}
use ms_ex.Order.Repository
use ms_ex.Order.Service.{Call, Service}
use ms_ex.Inventory.Repository.{Part}
use ms_ex.Inventory.Repository as Catalog
use ms_ex.Inventory.Api as InventoryApi
use ms_ex.Payment.Api as PaymentApi

-- What the deployment chooses: the catalog, how sort.Slice orders equal names, the ids that the
-- payment service draws (by what was sent before), and the storage of orders.
pub record Deployment (R : Type 0) : Type 0 where
  pub catalog : Catalog.Repository
  pub sort_slice : SortSlice
  pub transaction_uuid : List Call → Uuid
  pub repo : Repository.Repository R
  pub tr_manager : TrManager R

unfoldable pub order_service : {R : Type 0} → Libs → Deployment R → Service R
order_service L d = record {
  inventory_client = λ calls request. InventoryApi.list_parts L d.catalog d.sort_slice request;
  payment_client = λ calls request. PaymentApi.pay_order L (d.transaction_uuid calls) request;
  repo = d.repo;
  tr_manager = d.tr_manager;
}
