-- ===== src/Inventory.antt =====
-- The inventory service: inventory/pkg.
pub mod Repository
pub mod Service
pub mod Api
pub mod Agreement
