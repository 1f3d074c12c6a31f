-- ===== src/Products/Listing/Runs.antt =====
-- `listProducts` of apps/api/src/products/products.service.ts while no command to Redis fails.
use casecellshop.Base.{
  ℕ, String, Bool, true, false, ◌≡◌, refl, Option, none, some, List, if◌then◌else◌,
}
use casecellshop.Base.Assoc.{lookup, insert, remove}
use casecellshop.Action.{pure, ◌>>◌}
use casecellshop.Store.{Db}
use casecellshop.Observability.Trace.{span}
use casecellshop.Cache.Entry.{ProductListItem, ids}
use casecellshop.Cache.Service.{Entries, get_json, set_json, set_nx, or_catch}
use casecellshop.Cache.Service.Runs.{
  Runs, unchanged, pure-Runs, bind-Runs, or_catch-Runs, span-Runs, and_then-Runs, get_json-Runs,
  set_json-Runs,
}
use casecellshop.Products.Browsing.{Browsing}
use casecellshop.Products.Query.{ProductQuery, NormalizedQuery, normalize_query, query_key}
use casecellshop.Products.Fetch.{fetch_products}
use casecellshop.Products.Cards.{get_catalog_version, version_of}
use casecellshop.Products.Hydration.{hydrate_products, cache_cards, release_if}
use casecellshop.Products.Listing.{
  ProductPage, list_products, list_cached, list_missed, list_fetched, populate,
  acquire_query_lock_with_retry, lock_key, hit_page, miss_locked, page_with, item_ids, as_ids,
}
use casecellshop.Products.Hydration.Spec.{fetched, hydrated, hydrated_entries}
use casecellshop.Products.Hydration.Runs.{
  if-Runs, cache_cards-Runs, release-Runs, fetch_products-Runs, lock_with_retry-Runs,
  hydrate_products-Runs,
}
use casecellshop.Products.Listing.Filled.{card_entries}

module _ (b : Browsing) where
  -- Whether the query's lock is obtained, at once or after the wait, and what that leaves in Redis.
  abbrev locked : String → Db → Entries → Bool
  locked key db e = if (set_nx key e).0 then true else (set_nx key (b.meanwhile (set_nx key e).1)).0

  abbrev locked_entries : String → Db → Entries → Entries
  locked_entries key db e =
      if (set_nx key e).0 then (set_nx key e).1 else (set_nx key (b.meanwhile (set_nx key e).1)).1

  -- A listing of a page that Redis does not hold.
  abbrev missed : ℕ → NormalizedQuery → Bool → Db → Entries → ProductPage
  missed version query has_lock db e =
      if has_lock
      then page_with (fetched b query (λ id. true) db) query version "miss-populated"
      else miss_locked query version

  abbrev missed_entries : ℕ → NormalizedQuery → Bool → Db → Entries → Entries
  missed_entries version query has_lock db e =
      if has_lock
      then (let items = fetched b query (λ id. true) db in
          let key = query_key version query in
          remove (lock_key key) (card_entries version items (insert key (ids (item_ids items)) e)))
      else e

  -- The listing, by what Redis holds under the page's key.
  unfoldable pub listing : ℕ → NormalizedQuery → Option (List String) → Db → Entries → ProductPage
  unfolding hydrated
  listing version query none db e =
      let key = lock_key (query_key version query) in missed version query (locked key db e) db e
  listing version query (some wanted) db e = hit_page query version (hydrated b version wanted db e)

  unfoldable pub listing_entries :
      ℕ → NormalizedQuery → Option (List String) → Db → Entries → Entries
  unfolding hydrated_entries
  listing_entries version query none db e =
      let key = lock_key (query_key version query) in
      missed_entries version query (locked key db e) db (locked_entries key db e)
  listing_entries version query (some wanted) db e = hydrated_entries b version wanted db e

module _ (b : Browsing) (tracer : Option (ℕ → String)) (up : b.query_fails ≡ false) where
  module _ (version : ℕ) where
    populate-Runs :
        (key : String) (items : List ProductListItem)
        → Runs
            (populate tracer version key items)
            (λ db e. tt)
            (λ db e. card_entries version items (insert key (ids (item_ids items)) e))
    unfolding populate
    populate-Runs key items =
        bind-Runs (or_catch tt (set_json tracer key (ids (item_ids items))))
          (λ u. cache_cards tracer version items) _ _ (λ u db e. tt)
          (λ u db e. card_entries version items e)
          (or_catch-Runs tt (set_json tracer key (ids (item_ids items))) _ _
            (set_json-Runs tracer key (ids (item_ids items))))
          (λ u. cache_cards-Runs tracer version items)

    list_fetched-Runs :
        (query : NormalizedQuery)
        → Runs
            (list_fetched b tracer version query)
            (λ db e. page_with (fetched b query (λ id. true) db) query version "miss-populated")
            (λ db e.
              let items = fetched b query (λ id. true) db in
              card_entries version items
                (insert (query_key version query) (ids (item_ids items)) e))
    unfolding list_fetched
    list_fetched-Runs query =
        let fetch = fetch_products b query (λ id. true) in
        bind-Runs (span tracer "repo.products.fetch" fetch)
          (λ items.
            populate tracer version (query_key version query) items
            >> pure (page_with items query version "miss-populated"))
          _ _ (λ items db e. page_with items query version "miss-populated")
          (λ items db e.
            card_entries version items (insert (query_key version query) (ids (item_ids items)) e))
          (span-Runs tracer "repo.products.fetch" fetch _ _
            (fetch_products-Runs b tracer up query (λ id. true)))
          (λ items.
            bind-Runs (populate tracer version (query_key version query) items)
              (λ u. pure (page_with items query version "miss-populated")) _ _
              (λ u db e. page_with items query version "miss-populated") (λ u. unchanged)
              (populate-Runs (query_key version query) items)
              (λ u. pure-Runs (page_with items query version "miss-populated")))

  list_missed-Runs :
      (version : ℕ) (query : NormalizedQuery)
      → Runs
          (list_missed b tracer version query)
          (listing b version query none)
          (listing_entries b version query none)
  unfolding list_missed listing listing_entries
  list_missed-Runs version query =
      let key = lock_key (query_key version query) in
      bind-Runs (acquire_query_lock_with_retry b tracer key) _ (locked b key) (locked_entries b key)
        (missed b version query) (missed_entries b version query)
        (lock_with_retry-Runs b tracer key)
        (λ has_lock.
          if-Runs has_lock _ _ _ _ _ _
            (and_then-Runs (list_fetched b tracer version query) (release_if tracer true key) _ _ _
              (list_fetched-Runs version query) (release-Runs tracer key))
            (pure-Runs (miss_locked query version)))

  list_cached-Runs :
      (version : ℕ) (query : NormalizedQuery) (cached : Option (List String))
      → Runs
          (list_cached b tracer version query cached)
          (listing b version query cached)
          (listing_entries b version query cached)
  unfolding list_cached listing listing_entries
  list_cached-Runs version query none = list_missed-Runs version query
  list_cached-Runs version query (some wanted) =
      bind-Runs (hydrate_products b tracer version wanted) (λ h. pure (hit_page query version h)) _
        _ (λ h db e. hit_page query version h) (λ h. unchanged)
        (hydrate_products-Runs b tracer up version wanted)
        (λ h. pure-Runs (hit_page query version h))

  pub list_products-Runs :
      b.version_fails ≡ false
      → (query : ProductQuery)
      → let normal = normalize_query b query in
        Runs
          (list_products b tracer query)
          (λ db e.
            let version = version_of db in
            listing b version normal (as_ids (lookup (query_key version normal) e)) db e)
          (λ db e.
            let version = version_of db in
            listing_entries b version normal (as_ids (lookup (query_key version normal) e)) db e)
  unfolding list_products
  list_products-Runs known query =
      let normal = normalize_query b query in
      bind-Runs (get_catalog_version b.version_fails) _ (λ db e. version_of db) unchanged
        (λ version db e.
          listing b version normal (as_ids (lookup (query_key version normal) e)) db e)
        (λ version db e.
          listing_entries b version normal (as_ids (lookup (query_key version normal) e)) db e)
        (record {
          answers = λ w ready. rw known refl;
          leaves =
              λ w ready. rw known (λ i. record { entries = w.redis.entries; faults = ready i });
          keeps = λ w ready. rw known refl;
        })
        (λ version.
          bind-Runs (or_catch none (get_json tracer (query_key version normal))) _
            (λ db e. lookup (query_key version normal) e) unchanged
            (λ value. listing b version normal (as_ids value))
            (λ value. listing_entries b version normal (as_ids value))
            (or_catch-Runs none (get_json tracer (query_key version normal)) _ _
              (get_json-Runs tracer (query_key version normal)))
            (λ value. list_cached-Runs version normal (as_ids value)))
