-- ===== src/Checkout.antt =====
-- apps/api/src/checkout: a customer's order, from the HTTP request to the committed rows.
pub mod Request
pub mod Steps
pub mod Retry
pub mod Service
