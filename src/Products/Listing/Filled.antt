-- ===== src/Products/Listing/Filled.antt =====
-- The cards of a page: in Redis, where `populate` writes them, and in the map that `hydrateProducts` fills,
-- in apps/api/src/products/products.service.ts.
use casecellshop.Base.{
  ℕ, String, false, ◌≡◌, refl, ◌∙◌, ap, some, List, [], ◌∷◌, map, arith, contains, ◌==◌, eq_iff,
  eq_refl, All,
}
use casecellshop.Base.Assoc.{lookup, insert, lookup-insert}
use casecellshop.Checkout.Request.Locks.{IsDistinct}
use casecellshop.Cache.Entry.{ProductListItem, card}
use casecellshop.Cache.Service.{Entries}
use casecellshop.Products.Cards.{card_key}
use casecellshop.Products.Cards.Keys.{card_key_inj}
use casecellshop.Products.Hydration.{Found, collect, add_all, missing_ids, ordered}
use casecellshop.Cache.Service.{before_colon}
use casecellshop.Cache.Keys.{before_colon-named, apart_by_name}
use casecellshop.Products.Query.{NormalizedQuery, query_key}
use casecellshop.Products.Listing.{item_ids, lock_key}

-- Redis's entries once the items' cards are written.
abbrev pub card_entries : ℕ → List ProductListItem → Entries → Entries
card_entries version [] e = e
card_entries version (item ∷ items) e =
    card_entries version items (insert (card_key version item.id) (card item) e)

lookup-add_all_other :
    (id : String) (items : List ProductListItem) (found : Found)
    → contains id (item_ids items) ≡ false
    → lookup id (add_all items found) ≡ lookup id found
unfolding add_all
lookup-add_all_other id [] found other = refl
lookup-add_all_other id (item ∷ items) found other = ground (
  arith,
  other,
  lookup-add_all_other id items (insert item.id item found),
  lookup-insert item.id id item found,
)

pub lookup-add_all :
    (items : List ProductListItem) (found : Found)
    → IsDistinct (item_ids items)
    → All (λ (item : ProductListItem). lookup item.id (add_all items found) ≡ some item) items
unfolding add_all
lookup-add_all [] found d = tt
lookup-add_all (item ∷ items) found (new, d) = (
  lookup-add_all_other item.id items (insert item.id item found) new
      ∙ ground (arith, lookup-insert item.id item.id item found, eq_refl item.id),
  lookup-add_all items (insert item.id item found) d,
)

pub ordered-items :
    (items : List ProductListItem) (found : Found)
    → All (λ (item : ProductListItem). lookup item.id found ≡ some item) items
    → ordered (item_ids items) found ≡ items
unfolding ordered
ordered-items [] found a = refl
ordered-items (item ∷ items) found (e, a) =
    rw (e, ordered) (ap (λ rest. item ∷ rest) (ordered-items items found a))

pub missing_ids-none :
    (items : List ProductListItem) (found : Found)
    → All (λ (item : ProductListItem). lookup item.id found ≡ some item) items
    → missing_ids (item_ids items) found ≡ []
missing_ids-none [] found a = refl
missing_ids-none (item ∷ items) found (e, a) = rw e (missing_ids-none items found a)

card_key-other :
    (version : ℕ) (id other : String)
    → (id == other) ≡ false
    → (card_key version id == card_key version other) ≡ false
card_key-other version id other apart = ground (
  arith,
  eq_iff (card_key version id) (card_key version other),
  eq_iff id other,
  λ (e : card_key version id ≡ card_key version other). (card_key_inj version version id other e).1,
)

module _ (version : ℕ) where
  lookup-card_entries_other :
      (id : String) (items : List ProductListItem) (e : Entries)
      → contains id (item_ids items) ≡ false
      → lookup (card_key version id) (card_entries version items e) ≡ lookup (card_key version id) e
  lookup-card_entries_other id [] e other = refl
  lookup-card_entries_other id (item ∷ items) e other = ground (
    arith,
    other,
    lookup-card_entries_other id items (insert (card_key version item.id) (card item) e),
    lookup-insert (card_key version item.id) (card_key version id) (card item) e,
    card_key-other version item.id id,
  )

  pub lookup-card_entries :
      (items : List ProductListItem) (e : Entries)
      → IsDistinct (item_ids items)
      → All
          (λ (item : ProductListItem).
            lookup (card_key version item.id) (card_entries version items e) ≡ some (card item))
          items
  lookup-card_entries [] e d = tt
  lookup-card_entries (item ∷ items) e (new, d) =
      let e' = insert (card_key version item.id) (card item) e in
      (
        lookup-card_entries_other item.id items e' new
            ∙ ground (
              arith,
              lookup-insert (card_key version item.id) (card_key version item.id) (card item) e,
              eq_refl (card_key version item.id),
            ),
        lookup-card_entries items e' d,
      )

  pub collect-cards :
      (items : List ProductListItem) (e : Entries) (found : Found)
      → All
          (λ (item : ProductListItem). lookup (card_key version item.id) e ≡ some (card item))
          items
      → collect
          (item_ids items)
          (map (λ k. lookup k e) (map (card_key version) (item_ids items)))
          found
        ≡ add_all items found
  unfolding collect add_all
  collect-cards [] e found a = refl
  collect-cards (item ∷ items) e found (c, a) =
      rw c (collect-cards items e (insert item.id item found) a)

card_key-name : (version : ℕ) (id : String) → before_colon (card_key version id) ≡ "product"
unfolding card_key
card_key-name version id = before_colon-named "product" "card:v" _ refl

query_key-name :
    (version : ℕ) (query : NormalizedQuery) → before_colon (query_key version query) ≡ "products"
unfolding query_key
query_key-name version query = before_colon-named "products" "query:v" _ refl

lock_key-name : (key : String) → before_colon (lock_key key) ≡ "lock"
lock_key-name key = before_colon-named "lock" "" _ refl

module _ (version : ℕ) where
  card_key-query_key :
      (id : String) (query : NormalizedQuery)
      → (card_key version id == query_key version query) ≡ false
  card_key-query_key id query =
      apart_by_name _ _ _ _ (card_key-name version id) (query_key-name version query) refl

  pub lock_key-card_key : (key id : String) → (lock_key key == card_key version id) ≡ false
  lock_key-card_key key id =
      apart_by_name _ _ _ _ (lock_key-name key) (card_key-name version id) refl

  pub lock_key-query_key :
      (key : String) (query : NormalizedQuery) → (lock_key key == query_key version query) ≡ false
  lock_key-query_key key query =
      apart_by_name _ _ _ _ (lock_key-name key) (query_key-name version query) refl

  pub lookup-card_entries_page :
      (query : NormalizedQuery) (items : List ProductListItem) (e : Entries)
      → lookup (query_key version query) (card_entries version items e)
        ≡ lookup (query_key version query) e
  lookup-card_entries_page query [] e = refl
  lookup-card_entries_page query (item ∷ items) e = ground (
    arith,
    lookup-card_entries_page query items (insert (card_key version item.id) (card item) e),
    lookup-insert (card_key version item.id) (query_key version query) (card item) e,
    card_key-query_key item.id query,
  )
