-- ===== src/Http.antt =====
-- The generated HTTP layer of the order service: shared/pkg/openapi/order/v1.
pub mod Config
pub mod Schemas
pub mod Router
pub mod Json
pub mod Encoders
pub mod Server
pub mod Responses
pub mod Client
