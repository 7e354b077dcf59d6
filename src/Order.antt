-- ===== src/Order.antt =====
-- The order service: order/pkg.
pub mod Data
pub mod Repository
pub mod Service
pub mod Api
pub mod Main
pub mod Concurrent
