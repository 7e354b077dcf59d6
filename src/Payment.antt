-- ===== src/Payment.antt =====
-- The payment service: payment/pkg.
pub mod Service
pub mod Api
pub mod Acceptance
