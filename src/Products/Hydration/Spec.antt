-- ===== src/Products/Hydration/Spec.antt =====
-- What `hydrateProducts` of apps/api/src/products/products.service.ts answers, and leaves in Redis, while no
-- command fails: pure functions of the database and of Redis's entries.
use casecellshop.Base.{ℕ, String, Bool, true, false, List, [], ◌∷◌, map, contains}
use casecellshop.Base.Assoc.{lookup, remove}
use casecellshop.Store.{Db}
use casecellshop.Cache.Entry.{ProductListItem}
use casecellshop.Cache.Service.{Entries, set_nx}
use casecellshop.Products.Browsing.{Browsing}
use casecellshop.Products.Query.{NormalizedQuery}
use casecellshop.Products.Fetch.{to_list_item, page_of}
use casecellshop.Products.Cards.{card_key}
use casecellshop.Products.Hydration.{
  Found, HydratedProducts, missing_ids, ordered, cards_query, add_all, collect, hydration_lock_key,
}
use casecellshop.Products.Listing.Filled.{card_entries}

-- The items of the page that the database answers with.
abbrev pub fetched : Browsing → NormalizedQuery → (String → Bool) → Db → List ProductListItem
fetched b query extra db = map (to_list_item db) (page_of b query extra db)

-- The cards that Redis holds of the products.
unfoldable pub cards_in : ℕ → List String → Entries → Found → Found
unfolding collect
cards_in version wanted e = collect wanted (map (λ k. lookup k e) (map (card_key version) wanted))

unfoldable pub hydrated_by : List String → Found → HydratedProducts
unfolding ordered
hydrated_by wanted found = record {
  items = ordered wanted found;
  missing_product_card_ids = missing_ids wanted found;
}

module _ (b : Browsing) where
  -- What the process that holds the lock, or the one that waited, then has of the cards.
  unfoldable pub supplied : ℕ → List String → Found → Bool → Db → Entries → Found
  unfolding add_all cards_in
  supplied version missing found true db e =
      add_all (fetched b (cards_query missing) (λ id. contains id missing) db) found
  supplied version missing found false db e = cards_in version missing (b.meanwhile e) found

  abbrev pub supplied_entries : ℕ → List String → Bool → Db → Entries → Entries
  supplied_entries version missing true db e =
      remove (hydration_lock_key b version missing)
        (card_entries version (fetched b (cards_query missing) (λ id. contains id missing) db) e)
  supplied_entries version missing false db e = b.meanwhile e

  -- The answer where those cards are missing, and what it leaves in Redis.
  unfoldable pub hydrated_found :
      ℕ → List String → Found → List String → Db → Entries → HydratedProducts
  unfolding supplied hydrated_by
  hydrated_found version wanted found [] db e = record {
    items = ordered wanted found;
    missing_product_card_ids = [];
  }
  hydrated_found version wanted found (id ∷ missing) db e =
      let lacking = missing_ids wanted found in
      let (has_lock, e') = set_nx (hydration_lock_key b version lacking) e in
      hydrated_by wanted (supplied version lacking found has_lock db e')

  unfoldable pub hydrated_found_entries :
      ℕ → List String → Found → List String → Db → Entries → Entries
  hydrated_found_entries version wanted found [] db e = e
  hydrated_found_entries version wanted found (id ∷ missing) db e =
      let lacking = missing_ids wanted found in
      let (has_lock, e') = set_nx (hydration_lock_key b version lacking) e in
      supplied_entries version lacking has_lock db e'

  -- The answer of `hydrate_products`.
  unfoldable pub hydrated : ℕ → List String → Db → Entries → HydratedProducts
  unfolding hydrated_found cards_in
  hydrated version [] db e = record { items = []; missing_product_card_ids = [] }
  hydrated version (id ∷ more) db e =
      let found = cards_in version (id ∷ more) e [] in
      hydrated_found version (id ∷ more) found (missing_ids (id ∷ more) found) db e

  unfoldable pub hydrated_entries : ℕ → List String → Db → Entries → Entries
  unfolding hydrated_found_entries cards_in
  hydrated_entries version [] db e = e
  hydrated_entries version (id ∷ more) db e =
      let found = cards_in version (id ∷ more) e [] in
      hydrated_found_entries version (id ∷ more) found (missing_ids (id ∷ more) found) db e
