-- ===== src/Products/Listing/Misses.antt =====
-- Redis after a listing of `listProducts` in apps/api/src/products/products.service.ts that found neither the page
-- nor its lock, and what is read from it.
use casecellshop.Base.{
  ℕ, true, ◌≡◌, refl, ◌∙◌, ap, none, some, List, [], ◌∷◌, arith, All, All-weaken, eq_refl,
}
use casecellshop.Base.Assoc.{lookup, insert, remove, lookup-insert, lookup-remove}
use casecellshop.Checkout.Request.Locks.{IsDistinct}
use casecellshop.Store.{Db}
use casecellshop.Cache.Entry.{ProductListItem, card, ids, lock}
use casecellshop.Cache.Service.{Entries}
use casecellshop.Products.Browsing.{Browsing}
use casecellshop.Products.Query.{NormalizedQuery, query_key}
use casecellshop.Products.Cards.{card_key}
use casecellshop.Products.Hydration.{Found, HydratedProducts, missing_ids, add_all}
use casecellshop.Products.Hydration.Spec.{fetched, hydrated, hydrated_found, cards_in}
use casecellshop.Products.Listing.{lock_key, page_with, item_ids}
use casecellshop.Products.Listing.Filled.{
  card_entries, lookup-add_all, ordered-items, missing_ids-none, lookup-card_entries, collect-cards,
  lock_key-card_key, lock_key-query_key, lookup-card_entries_page,
}
use casecellshop.Products.Listing.Runs.{listing, listing_entries}

abbrev pub complete : List ProductListItem → HydratedProducts
complete items = record { items = items; missing_product_card_ids = [] }

module _ (b : Browsing) (version : ℕ) (db : Db) where
  hydrated_found-complete :
      (items : List ProductListItem) (found : Found) (e : Entries)
      → All (λ (item : ProductListItem). lookup item.id found ≡ some item) items
      → hydrated_found b version (item_ids items) found (missing_ids (item_ids items) found) db e
        ≡ complete items
  unfolding hydrated_found
  hydrated_found-complete items found e a =
      ap (λ missing. hydrated_found b version (item_ids items) found missing db e)
        (missing_ids-none items found a)
      ∙ ap complete (ordered-items items found a)

  pub hydrated-complete :
      (items : List ProductListItem) (e : Entries)
      → IsDistinct (item_ids items)
      → All
          (λ (item : ProductListItem). lookup (card_key version item.id) e ≡ some (card item))
          items
      → hydrated b version (item_ids items) db e ≡ complete items
  unfolding hydrated cards_in
  hydrated-complete [] e d a = refl
  hydrated-complete (item ∷ items) e d a =
      ap
        (λ found.
          hydrated_found b version (item_ids (item ∷ items)) found
            (missing_ids (item_ids (item ∷ items)) found) db e)
        (collect-cards version (item ∷ items) e [] a)
      ∙ hydrated_found-complete (item ∷ items) (add_all (item ∷ items) []) e
          (lookup-add_all (item ∷ items) [] d)

-- Redis's entries after a listing that found neither the page nor its lock.
abbrev pub filled : ℕ → NormalizedQuery → List ProductListItem → Entries → Entries
filled version query items e =
    let key = query_key version query in
    remove (lock_key key) (
      card_entries version items (insert key (ids (item_ids items)) (insert (lock_key key) lock e)))

module _ (version : ℕ) (query : NormalizedQuery) (items : List ProductListItem) (e : Entries) where
  pub lookup-filled_page :
      lookup (query_key version query) (filled version query items e) ≡ some (ids (item_ids items))
  lookup-filled_page =
      let key = query_key version query in
      let e' = insert (lock_key key) lock e in
      ground (
        arith,
        lookup-remove (lock_key key) key
            (card_entries version items (insert key (ids (item_ids items)) e')),
        lookup-card_entries_page version query items (insert key (ids (item_ids items)) e'),
        lookup-insert key key (ids (item_ids items)) e',
        eq_refl key,
        lock_key-query_key version key query,
      )

  pub lookup-filled_lock :
      lookup (lock_key (query_key version query)) (filled version query items e) ≡ none
  lookup-filled_lock =
      let key = lock_key (query_key version query) in
      ground (
        arith,
        lookup-remove key key (
            card_entries version items
              (insert (query_key version query) (ids (item_ids items)) (insert key lock e))),
        eq_refl key,
      )

  pub lookup-filled_cards :
      IsDistinct (item_ids items)
      → All
          (λ (item : ProductListItem).
            lookup (card_key version item.id) (filled version query items e) ≡ some (card item))
          items
  lookup-filled_cards d =
      let key = query_key version query in
      let e' = insert key (ids (item_ids items)) (insert (lock_key key) lock e) in
      All-weaken
        (λ (item : ProductListItem).
          lookup (card_key version item.id) (card_entries version items e') ≡ some (card item))
        (λ (item : ProductListItem).
          lookup (card_key version item.id) (filled version query items e) ≡ some (card item))
        items
        (λ item held. ground (
          arith,
          held,
          lookup-remove (lock_key key) (card_key version item.id) (card_entries version items e'),
          lock_key-card_key version key item.id,
        ))
        (lookup-card_entries version items e' d)

module _ (b : Browsing) (version : ℕ) (query : NormalizedQuery) (db : Db) (e : Entries) where
  pub listing-miss :
      lookup (lock_key (query_key version query)) e ≡ none
      → listing b version query none db e
        ≡ page_with (fetched b query (λ id. true) db) query version "miss-populated"
  unfolding listing
  listing-miss free = rw free refl

  pub listing_entries-miss :
      lookup (lock_key (query_key version query)) e ≡ none
      → listing_entries b version query none db e
        ≡ filled version query (fetched b query (λ id. true) db) e
  unfolding listing_entries
  listing_entries-miss free = rw free refl
