-- ===== src/Cache/Entry.antt =====
-- The values that the shop keeps in Redis, and Redis as a list of keys with their values.
use casecellshop.Base.{ℕ, String, Bool, Option, List}

-- `ProductListItem` of apps/api/src/products/products.service.ts: a product's card.
pub record ProductListItem : Type 0 where
  pub id : String
  pub sku : String
  pub name : String
  pub image_url : Option String
  pub brand : Option String
  pub price_cents : ℕ
  pub currency : String
  pub available_qty : ℕ
  pub in_stock : Bool

-- A card under `product:card:…`, the ids of a page under `products:query:…`, or a lock's "1".
pub data CacheValue : Type 0 where
  card : ProductListItem → CacheValue
  ids : List String → CacheValue
  lock : CacheValue

-- `faults` says for each command to come whether Redis fails it; past its end none fails.
pub record Redis : Type 0 where
  pub entries : List (String × CacheValue)
  pub faults : List Bool
