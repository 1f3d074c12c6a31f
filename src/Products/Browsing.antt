-- ===== src/Products/Browsing.antt =====
-- What apps/api/src/products/products.service.ts takes from JavaScript, the database and other processes.
use casecellshop.Base.{ℕ, String, Bool, List}
use casecellshop.Cache.Entry.{CacheValue}

-- What the service takes from elsewhere: `trim` and `toLowerCase`; the database's comparisons, without
-- case for a brand and by its collation for ids; its column `updatedAt`, by the product's id, as a query
-- finds it, and whether it fails the read of the catalogue's version or the query for products; the first sixteen digits of SHA-256; the order
-- of UTF-16 code units, by which `sort` goes; the random numbers below fifty, by the number of the wait;
-- and what other processes make of Redis while this one waits.
pub record Browsing : Type 0 where
  pub trim : String → String
  pub lower : String → String
  pub same_brand : String → String → Bool
  pub id_le : String → String → Bool
  pub updated_at : String → ℕ
  pub version_fails : Bool
  pub query_fails : Bool
  pub short_hash : String → String
  pub code_unit_le : String → String → Bool
  pub random : ℕ → ℕ
  pub meanwhile : List (String × CacheValue) → List (String × CacheValue)
