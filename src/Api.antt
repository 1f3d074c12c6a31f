-- ===== src/Api.antt =====
-- apps/api: the controllers, and what they answer.
pub mod Controllers
pub mod Checkouts
pub mod Orders
