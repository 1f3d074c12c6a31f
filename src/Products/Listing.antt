-- ===== src/Products/Listing.antt =====
-- `listProducts` and `getProductById` of apps/api/src/products/products.service.ts.
pub mod Calm
pub mod Filled
pub mod Runs
pub mod Misses
pub mod Hits
pub mod Failure
use casecellshop.Base.{
  ℕ, String, Bool, true, false, Option, none, some, List, [], ◌∷◌, map, concat, if◌then◌else◌, ◌==◌,
}
use casecellshop.Action.{ok, Action, pure, gets, ◌>>=◌, ◌>>◌}
use casecellshop.Observability.Trace.{span}
use casecellshop.World.{World}
use casecellshop.Cache.Entry.{ProductListItem, CacheValue, ids}
use casecellshop.Cache.Service.{get_json, set_json, acquire_lock, or_catch, and_then}
use casecellshop.Products.Browsing.{Browsing}
use casecellshop.Products.Query.{ProductQuery, NormalizedQuery, normalize_query, query_key}
use casecellshop.Products.Fetch.{fetch_products}
use casecellshop.Products.Cards.{get_catalog_version, version_of, card_key, cache_product_card}
use casecellshop.Products.Hydration.{
  HydratedProducts, hydrate_products, cache_cards, release_if, sleep, as_card,
}

-- The fields of `meta` beside those of the query: `degraded` has `missingProductCardIds` where that field
-- and `degraded: true` are set.
pub record Meta : Type 0 where
  pub query : NormalizedQuery
  pub catalog_version : ℕ
  pub cache : String
  pub degraded : Option (List String)
  pub retry_later : Bool

pub record ProductPage : Type 0 where
  pub items : List ProductListItem
  pub meta : Meta

abbrev pub page_with : List ProductListItem → NormalizedQuery → ℕ → String → ProductPage
page_with items query version cache = record {
  items = items;
  meta = record {
    query = query;
    catalog_version = version;
    cache = cache;
    degraded = none;
    retry_later = false;
  };
}

abbrev pub miss_locked : NormalizedQuery → ℕ → ProductPage
miss_locked query version = record {
  items = [];
  meta = record {
    query = query;
    catalog_version = version;
    cache = "miss-locked";
    degraded = none;
    retry_later = true;
  };
}

abbrev degraded_by : List String → Option (List String)
degraded_by [] = none
degraded_by (id ∷ missing) = some (id ∷ missing)

abbrev pub hit_page : NormalizedQuery → ℕ → HydratedProducts → ProductPage
hit_page query version hydrated = record {
  items = hydrated.items;
  meta = record {
    query = query;
    catalog_version = version;
    cache = "hit";
    degraded = degraded_by hydrated.missing_product_card_ids;
    retry_later = false;
  };
}

-- The ids that `getJson` has read; under a page's key there is nothing else.
abbrev pub as_ids : Option CacheValue → Option (List String)
as_ids (some (ids l)) = some l
as_ids _ = none

abbrev pub try_acquire_query_lock : Option (ℕ → String) → String → Action World Bool
try_acquire_query_lock tracer key = or_catch false (acquire_lock tracer key)

unfoldable pub acquire_query_lock_with_retry :
    Browsing → Option (ℕ → String) → String → Action World Bool
unfolding sleep
acquire_query_lock_with_retry b tracer key = do
  free ← try_acquire_query_lock tracer key
  if free then pure true else sleep b >> try_acquire_query_lock tracer key

abbrev pub lock_key : String → String
lock_key key = concat ("lock:" ∷ key ∷ [])

abbrev pub item_ids : List ProductListItem → List String
item_ids = map (λ (item : ProductListItem). item.id)

-- The ids and the cards are written at the same time, each under a key of its own.
unfoldable pub populate :
    Option (ℕ → String) → ℕ → String → List ProductListItem → Action World (Unit {0})
populate tracer version key items =
    or_catch tt (set_json tracer key (ids (item_ids items))) >> cache_cards tracer version items

unfoldable pub list_fetched :
    Browsing → Option (ℕ → String) → ℕ → NormalizedQuery → Action World ProductPage
unfolding populate
list_fetched b tracer version query = do
  items ← span tracer "repo.products.fetch" (fetch_products b query (λ id. true))
  populate tracer version (query_key version query) items
  pure (page_with items query version "miss-populated")

unfoldable pub list_missed :
    Browsing → Option (ℕ → String) → ℕ → NormalizedQuery → Action World ProductPage
unfolding acquire_query_lock_with_retry list_fetched
list_missed b tracer version query = do
  let key = lock_key (query_key version query)
  has_lock ← acquire_query_lock_with_retry b tracer key
  if has_lock
      then and_then (list_fetched b tracer version query) (release_if tracer true key)
      else pure (miss_locked query version)

unfoldable pub list_cached :
    Browsing
    → Option (ℕ → String)
    → ℕ
    → NormalizedQuery
    → Option (List String)
    → Action World ProductPage
unfolding hydrate_products list_missed
list_cached b tracer version query none = list_missed b tracer version query
list_cached b tracer version query (some cached) = do
  hydrated ← hydrate_products b tracer version cached
  pure (hit_page query version hydrated)

unfoldable pub list_products :
    Browsing → Option (ℕ → String) → ProductQuery → Action World ProductPage
unfolding list_cached
list_products b tracer query = do
  let normalized = normalize_query b query
  version ← get_catalog_version b.version_fails
  value ← or_catch none (get_json tracer (query_key version normalized))
  list_cached b tracer version normalized (as_ids value)

abbrev pub one_product : NormalizedQuery
one_product = record { brand = ""; device = ""; sort = "relevance"; page = 1; page_size = 1 }

abbrev pub first : List ProductListItem → Option ProductListItem
first [] = none
first (item ∷ items) = some item

abbrev pub cache_found :
    Option (ℕ → String) → ℕ → Option ProductListItem → Action World (Option ProductListItem)
cache_found tracer version none = pure none
cache_found tracer version (some item) = cache_product_card tracer version item >> pure (some item)

unfoldable pub get_uncached :
    Browsing → Option (ℕ → String) → ℕ → String → Action World (Option ProductListItem)
get_uncached b tracer version id = do
  items ← span tracer "repo.product.fetch" (fetch_products b one_product (λ other. other == id))
  cache_found tracer version (first items)

unfoldable pub get_cached :
    Browsing
    → Option (ℕ → String)
    → ℕ
    → String
    → Option ProductListItem
    → Action World (Option ProductListItem)
unfolding get_uncached
get_cached b tracer version id (some item) = pure (some item)
get_cached b tracer version id none = get_uncached b tracer version id

unfoldable pub get_product_by_id :
    Browsing → Option (ℕ → String) → String → Action World (Option ProductListItem)
unfolding get_cached
get_product_by_id b tracer id = do
  version ← get_catalog_version b.version_fails
  value ← or_catch none (get_json tracer (card_key version id))
  get_cached b tracer version id (as_card value)
