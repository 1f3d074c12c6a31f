-- ===== src/Cache.antt =====
-- libs/cache: what Redis holds for the shop, and the operations of `CacheService`.
pub mod Entry
pub mod Service
pub mod Keys
