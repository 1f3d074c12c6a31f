-- ===== src/Products/Listing/Calm.antt =====
-- Reads of the catalogue, `listProducts` and `getProductById` of
-- apps/api/src/products/products.service.ts, while Redis fails.
use casecellshop.Base.{ℕ, String, true, false, ◌≡◌, refl, Option, none, some, List, ◌==◌}
use casecellshop.Observability.Trace.{span}
use casecellshop.Cache.Entry.{ProductListItem, ids}
use casecellshop.Cache.Service.Calm.{
  IsCalm, pure-IsCalm, bind-IsCalm, if-IsCalm, or_catch-IsCalm, span-IsCalm,
}
use casecellshop.Products.Hydration.Calm.{
  cache_product_card-IsCalm, cache_cards-IsCalm, try_lock-IsCalm, release_if-IsCalm,
  and_then-IsCalm, sleep-IsCalm, fetch_products-IsCalm, hydrate_products-IsCalm,
}
use casecellshop.Cache.Service.Frame.{get_json-SparesDb, set_json-SparesDb}
use casecellshop.Cache.Service.{get_json, set_json, or_catch}
use casecellshop.Products.Browsing.{Browsing}
use casecellshop.Products.Query.{ProductQuery, NormalizedQuery, normalize_query, query_key}
use casecellshop.Products.Fetch.{fetch_products}
use casecellshop.Products.Cards.{get_catalog_version, card_key, cache_product_card, version_of}
use casecellshop.Products.Hydration.{hydrate_products, sleep, as_card}
use casecellshop.Products.Listing.{
  list_products, list_cached, list_missed, list_fetched, populate, acquire_query_lock_with_retry,
  try_acquire_query_lock, lock_key, item_ids, as_ids, get_product_by_id, get_uncached, get_cached,
  one_product, cache_found, first,
}

-- Throughout, the database answers the queries for products.
module _ (b : Browsing) (tracer : Option (ℕ → String)) (up : b.query_fails ≡ false) where
  module _ (version : ℕ) where
    populate-IsCalm :
        (key : String) (items : List ProductListItem) → IsCalm (populate tracer version key items)
    unfolding populate
    populate-IsCalm key items =
        bind-IsCalm (or_catch tt (set_json tracer key (ids (item_ids items)))) _
          (or_catch-IsCalm tt (set_json tracer key (ids (item_ids items)))
            (set_json-SparesDb tracer key (ids (item_ids items))))
          (λ u. cache_cards-IsCalm tracer version items)

    list_fetched-IsCalm : (query : NormalizedQuery) → IsCalm (list_fetched b tracer version query)
    unfolding list_fetched
    list_fetched-IsCalm query =
        bind-IsCalm (span tracer "repo.products.fetch" (fetch_products b query (λ id. true))) _
          (span-IsCalm tracer "repo.products.fetch" (fetch_products b query (λ id. true))
            (fetch_products-IsCalm b tracer up query (λ id. true)))
          (λ items.
            bind-IsCalm (populate tracer version (query_key version query) items) _
              (populate-IsCalm (query_key version query) items) (λ u. pure-IsCalm _))

    lock_with_retry-IsCalm : (key : String) → IsCalm (acquire_query_lock_with_retry b tracer key)
    unfolding acquire_query_lock_with_retry
    lock_with_retry-IsCalm key =
        bind-IsCalm (try_acquire_query_lock tracer key) _ (try_lock-IsCalm tracer key) (λ free.
          if-IsCalm free _ _ (pure-IsCalm true)
            (bind-IsCalm (sleep b) _ (sleep-IsCalm b) (λ u. try_lock-IsCalm tracer key)))

    list_missed-IsCalm : (query : NormalizedQuery) → IsCalm (list_missed b tracer version query)
    unfolding list_missed
    list_missed-IsCalm query =
        let key = lock_key (query_key version query) in
        bind-IsCalm (acquire_query_lock_with_retry b tracer key) _ (lock_with_retry-IsCalm key)
          (λ has_lock.
            if-IsCalm has_lock _ _
              (and_then-IsCalm _ _ (list_fetched-IsCalm query) (release_if-IsCalm tracer true key))
              (pure-IsCalm _))

    list_cached-IsCalm :
        (query : NormalizedQuery) (cached : Option (List String))
        → IsCalm (list_cached b tracer version query cached)
    unfolding list_cached
    list_cached-IsCalm query none = list_missed-IsCalm query
    list_cached-IsCalm query (some wanted) =
        bind-IsCalm (hydrate_products b tracer version wanted) _
          (hydrate_products-IsCalm b tracer up version wanted) (λ hydrated. pure-IsCalm _)

    cache_found-IsCalm : (item : Option ProductListItem) → IsCalm (cache_found tracer version item)
    cache_found-IsCalm none = pure-IsCalm none
    cache_found-IsCalm (some item) =
        bind-IsCalm (cache_product_card tracer version item) _
          (cache_product_card-IsCalm tracer version item) (λ u. pure-IsCalm (some item))

    get_uncached-IsCalm : (id : String) → IsCalm (get_uncached b tracer version id)
    unfolding get_uncached
    get_uncached-IsCalm id =
        let query = fetch_products b one_product (λ other. other == id) in
        bind-IsCalm (span tracer "repo.product.fetch" query) _
          (span-IsCalm tracer "repo.product.fetch" query
            (fetch_products-IsCalm b tracer up one_product (λ other. other == id)))
          (λ items. cache_found-IsCalm (first items))

    get_cached-IsCalm :
        (id : String) (cached : Option ProductListItem)
        → IsCalm (get_cached b tracer version id cached)
    unfolding get_cached
    get_cached-IsCalm id none = get_uncached-IsCalm id
    get_cached-IsCalm id (some item) = pure-IsCalm (some item)

  read-IsCalm : (key : String) → IsCalm (or_catch none (get_json tracer key))
  read-IsCalm key = or_catch-IsCalm none (get_json tracer key) (get_json-SparesDb tracer key)

  version-IsCalm : b.version_fails ≡ false → IsCalm (get_catalog_version b.version_fails)
  version-IsCalm known = record {
    answers = λ w. (version_of w.db, rw known refl);
    keeps = λ w. rw known refl;
  }

  -- Whatever Redis and other processes do, while the database answers its queries a listing
  -- answers with a page and leaves the database as it was.
  pub list_products-IsCalm :
      b.version_fails ≡ false → (query : ProductQuery) → IsCalm (list_products b tracer query)
  unfolding list_products
  list_products-IsCalm known query =
      let normalized = normalize_query b query in
      bind-IsCalm (get_catalog_version b.version_fails) _ (version-IsCalm known) (λ version.
        bind-IsCalm (or_catch none (get_json tracer (query_key version normalized))) _
          (read-IsCalm (query_key version normalized))
          (λ value. list_cached-IsCalm version normalized (as_ids value)))

  -- Whatever Redis and other processes do, while the database answers its queries a read of
  -- one product answers and leaves the database as it was.
  pub get_product_by_id-IsCalm :
      b.version_fails ≡ false → (id : String) → IsCalm (get_product_by_id b tracer id)
  unfolding get_product_by_id
  get_product_by_id-IsCalm known id =
      bind-IsCalm (get_catalog_version b.version_fails) _ (version-IsCalm known) (λ version.
        bind-IsCalm (or_catch none (get_json tracer (card_key version id))) _
          (read-IsCalm (card_key version id))
          (λ value. get_cached-IsCalm version id (as_card value)))
