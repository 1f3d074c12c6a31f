-- ===== src/Products/Listing/Hits.antt =====
-- Two listings of a page one after the other: `listProducts` of apps/api/src/products/products.service.ts
-- fills Redis, and is then served from it.
use mathlib.Core.Path.{subst}
use casecellshop.Base.{ℕ, String, true, false, ◌≡◌, sym, ◌∙◌, ap, Option, none, List, []}
use casecellshop.Base.Assoc.{lookup}
use casecellshop.Action.{ok}
use casecellshop.World.{World}
use casecellshop.Store.{Db}
use casecellshop.Cache.Entry.{ProductListItem, Redis}
use casecellshop.Cache.Service.{Entries}
use casecellshop.Products.Browsing.{Browsing}
use casecellshop.Products.Query.{ProductQuery, NormalizedQuery, normalize_query, query_key}
use casecellshop.Products.Fetch.{page_of}
use casecellshop.Products.Fetch.Pages.{HasOneOfEach, page_of-All, item_ids-IsDistinct}
use casecellshop.Products.Cards.{version_of}
use casecellshop.Products.Hydration.Spec.{fetched}
use casecellshop.Products.Listing.{list_products, lock_key, page_with, hit_page, as_ids}
use casecellshop.Products.Listing.Runs.{listing, listing_entries, list_products-Runs}
use casecellshop.Products.Listing.Misses.{
  filled, hydrated-complete, lookup-filled_page, lookup-filled_lock, lookup-filled_cards,
  listing-miss, listing_entries-miss,
}

-- Redis answers every command, and holds neither the page of the query nor the page's lock.
pub record IsCold (b : Browsing) (query : ProductQuery) (w : World) : Type 0 where
  pub ready : w.redis.faults ≡ []
  pub no_page :
      lookup (query_key (version_of w.db) (normalize_query b query)) w.redis.entries ≡ none
  pub lock_free :
      lookup (lock_key (query_key (version_of w.db) (normalize_query b query))) w.redis.entries
      ≡ none

module _ (b : Browsing) (tracer : Option (ℕ → String)) (up : b.query_fails ≡ false)
    (known : b.version_fails ≡ false) (query : ProductQuery) where
  abbrev normal : NormalizedQuery
  normal = normalize_query b query

  first_answer :
      (w : World)
      → IsCold b query w
      → (list_products b tracer query w).0
        ≡ ok (
            page_with
              (fetched b normal (λ id. true) w.db)
              normal
              (version_of w.db)
              "miss-populated")
  first_answer w cold =
      (list_products-Runs b tracer up known query).answers w cold.ready
      ∙ ap (λ value. ok (listing b (version_of w.db) normal (as_ids value) w.db w.redis.entries))
          cold.no_page
      ∙ ap ok (listing-miss b (version_of w.db) normal w.db w.redis.entries cold.lock_free)

  first_entries :
      (w : World)
      → IsCold b query w
      → (list_products b tracer query w).1.redis ≡ record {
        entries =
            filled (version_of w.db) normal (fetched b normal (λ id. true) w.db) w.redis.entries;
        faults = [];
      }
  first_entries w cold =
      (list_products-Runs b tracer up known query).leaves w cold.ready
      ∙ ap (λ entries. record { entries = entries; faults = [] })
          (ap
              (λ value.
                listing_entries b (version_of w.db) normal (as_ids value) w.db w.redis.entries)
              cold.no_page
            ∙ listing_entries-miss b (version_of w.db) normal w.db w.redis.entries cold.lock_free)

  -- From a filled Redis the page is served without the database.
  second_answer :
      (w : World) (e : Entries)
      → HasOneOfEach w.db.products
      → w.redis ≡ record {
        entries = filled (version_of w.db) normal (fetched b normal (λ id. true) w.db) e;
        faults = [];
      }
      → (list_products b tracer query w).0
        ≡ ok (page_with (fetched b normal (λ id. true) w.db) normal (version_of w.db) "hit")
  unfolding listing
  second_answer w e unique held =
      let version = version_of w.db in
      let items = fetched b normal (λ id. true) w.db in
      let d =
        item_ids-IsDistinct w.db (page_of b normal (λ id. true) w.db)
          (page_of-All b normal (λ id. true) w.db unique).1.1 in
      (list_products-Runs b tracer up known query).answers w (ap (λ (r : Redis). r.faults) held)
      ∙ ap
          (λ (r : Redis). ok (
            listing b version normal (as_ids (lookup (query_key version normal) r.entries)) w.db
              r.entries))
          held
      ∙ ap
          (λ value.
            ok (listing b version normal (as_ids value) w.db (filled version normal items e)))
          (lookup-filled_page version normal items e)
      ∙ ap (λ h. ok (hit_page normal version h))
          (hydrated-complete b version w.db items (filled version normal items e) d
            (lookup-filled_cards version normal items e d))

  -- Where the database answers, no two products have the same id, and Redis answers every command and holds
  -- neither the page nor its lock, a listing fetches the page from the database, and the same listing
  -- right after it is a hit with the same items, none of them missing; the page's lock is free between them.
  pub list_products-twice :
      (w : World)
      → HasOneOfEach w.db.products
      → IsCold b query w
      → let version = version_of w.db in
        let items = fetched b normal (λ id. true) w.db in
        let (r, w') = list_products b tracer query w in
        (r ≡ ok (page_with items normal version "miss-populated"))
        × ((lookup (lock_key (query_key version normal)) w'.redis.entries ≡ none)
            × ((list_products b tracer query w').0 ≡ ok (page_with items normal version "hit")))
  list_products-twice w unique cold =
      let w' = (list_products b tracer query w).1 in
      let same : w'.db ≡ w.db = (list_products-Runs b tracer up known query).keeps w cold.ready in
      let of_db : Db → List ProductListItem = fetched b normal (λ id. true) in
      let version = version_of w.db in
      let key = query_key version normal in
      (
        first_answer w cold,
        (
          ap (λ (r : Redis). lookup (lock_key key) r.entries) (first_entries w cold)
              ∙ lookup-filled_lock version normal (of_db w.db) w.redis.entries,
          second_answer w' w.redis.entries
                (subst (λ (db : Db). HasOneOfEach db.products) (sym same) unique)
                (first_entries w cold
                  ∙ ap
                      (λ (db : Db). record {
                        entries = filled (version_of db) normal (of_db db) w.redis.entries;
                        faults = [];
                      })
                      (sym same))
              ∙ ap (λ (db : Db). ok (page_with (of_db db) normal (version_of db) "hit")) same,
        ),
      )
