-- ===== src/Products.antt =====
-- apps/api/src/products: the catalogue pages, served from Redis and the database.
pub mod Browsing
pub mod Cards
pub mod Query
pub mod Fetch
pub mod Hydration
pub mod Listing
