-- ===== src/Order/Repository/Memory.antt =====
-- order/pkg/repository/memory.go. The mutex makes each call one step.
use ms_ex.Prelude.{Option, none, some, [], Table, lookup, insert}
use ms_ex.Errors.{Error, sentinel, Result, ok, err, order_repository_not_found}
use ms_ex.External.{Uuid}
use ms_ex.Order.Data.{Order}

-- r.orders
abbrev pub Orders : Type 0
Orders = Table Order

-- NewMemoryRepository
abbrev pub empty : Orders
empty = []

unfoldable pub save : Order → Orders → Option Error × Orders
save order orders = (none, insert order.order_uuid order orders)

abbrev pub found : Option Order → Result Order
found none = err (sentinel order_repository_not_found)
found (some order) = ok order

unfoldable pub get : Uuid → Orders → Result Order
get id orders = found (lookup id orders)
