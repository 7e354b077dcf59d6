-- ===== src/Examples.antt =====
-- The theorems applied at concrete inputs.
pub mod Data
mod Sorting
pub mod Web
mod Orders
mod Life
mod Marshal
mod Systems
mod Telemetry
mod Components
mod Requests
mod Overlaps
mod Clients
mod Catalogs
