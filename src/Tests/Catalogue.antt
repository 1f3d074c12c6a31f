-- ===== src/Tests/Catalogue.antt =====
-- Reads of the catalogue of the small shop.
use casecellshop.Base.{ℕ, String, ◌≡◌, refl, none, some, [], ◌==◌, Bool, true, false}
use casecellshop.Base.Assoc.{lookup, insert, remove}
use casecellshop.Action.{ok, err, other}
use casecellshop.Products.Browsing.{Browsing}
use casecellshop.Cache.Service.Calm.{IsCalm}
use casecellshop.Products.Cards.{card_key, cache_product_card}
use casecellshop.Products.Cards.Keys.{card_key_inj}
use casecellshop.Products.Query.{
  ProductQuery, NormalizedQuery, normalize_query, query_key, whole, missing,
}
use casecellshop.Products.Query.Bounds.{IsInRange, normalize_query-IsInRange}
use casecellshop.Products.Query.Keys.{IsPlainQuery, query_key_inj}
use casecellshop.Products.Fetch.{
  to_list_item, fetch_products, comes_first, is_match, page_of, price_cents_of, popularity_of,
}
use casecellshop.Products.Fetch.Cover.{first_pages, in_order, matching, first_pages-cover}
use casecellshop.Products.Fetch.Order.{IsOrdered, NotBefore, NotAfter, page_of-IsOrdered}
use casecellshop.Products.Fetch.Pages.{IsOffered, HasOneOfEach, page_of-All}
use casecellshop.Products.Hydration.{
  HydratedProducts, hydrate_products, hydrate_found, hydrate_missing, fetch_missing, collect,
  add_all, ordered, cache_cards, hydration_lock_key, join,
}
use casecellshop.Cache.Service.{
  get_json_many, set_json, acquire_lock, release_lock, command, observe_redis, record_lookups,
  record_lookup,
}
use casecellshop.Observability.Trace.{start_span}
use casecellshop.Products.Hydration.Spec.{fetched}
use casecellshop.Products.Listing.{list_products, get_product_by_id, page_with, lock_key}
use casecellshop.Products.Listing.Calm.{list_products-IsCalm, get_product_by_id-IsCalm}
use casecellshop.Products.Listing.Failure.{list_products_fails}
use casecellshop.Products.Listing.Hits.{IsCold, list_products-twice}
use casecellshop.Base.{◌∷◌, decimal, sort, insert_sorted, count, arith, length, ◌≤◌, All}
use casecellshop.Tests.Samples.{a_product, shop, world, case_a_first}

abbrev browsing : Browsing
browsing = record {
  trim = λ text. text;
  lower = λ text. text;
  same_brand = λ a b. a == b;
  id_le = case_a_first;
  updated_at = λ id. 0;
  version_fails = false;
  query_fails = false;
  short_hash = λ text. text;
  code_unit_le = case_a_first;
  random = λ n. 7;
  meanwhile = λ entries. entries;
}

abbrev cheap_first : ProductQuery
cheap_first = record {
  brand = none;
  device = none;
  sort = some "price_asc";
  page = missing;
  page_size = whole 60;
}

abbrev normal : NormalizedQuery
normal = record { brand = ""; device = ""; sort = "price_asc"; page = 1; page_size = 50 }

list_products-IsCalm_example : IsCalm (list_products browsing none cheap_first)
list_products-IsCalm_example = list_products-IsCalm browsing none refl refl cheap_first

get_product_by_id-IsCalm_example : IsCalm (get_product_by_id browsing none "case-a")
get_product_by_id-IsCalm_example = get_product_by_id-IsCalm browsing none refl refl "case-a"

normalize_query-IsInRange_example : IsInRange (normalize_query browsing cheap_first)
normalize_query-IsInRange_example = normalize_query-IsInRange browsing cheap_first

abbrev twelve : ℕ
twelve = 12

abbrev case_a : String
case_a = "case-a"

card_key_inj_example : (twelve ≡ twelve) × (case_a ≡ case_a)
card_key_inj_example = card_key_inj twelve twelve case_a case_a refl

normal-IsPlainQuery : IsPlainQuery normal
normal-IsPlainQuery = record {
  brand_plain = record { no_colon = refl; not_all = refl };
  device_plain = record { no_colon = refl; not_all = refl };
  sort_plain = refl;
}

query_key_inj_example : (twelve ≡ twelve) × (normal ≡ normal)
query_key_inj_example =
    query_key_inj twelve twelve normal normal normal-IsPlainQuery normal-IsPlainQuery refl

abbrev any : String → Bool
any id = true

page_of-All_example :
    (length (page_of browsing normal any shop) ≤ 50)
    × (All (IsOffered browsing normal any shop) (page_of browsing normal any shop)
        × HasOneOfEach (page_of browsing normal any shop))
page_of-All_example = page_of-All browsing normal any shop ((refl, tt), (tt, tt))

browsing-IsCold : IsCold browsing cheap_first (world shop)
unfolding lookup
browsing-IsCold = record { ready = refl; no_page = refl; lock_free = refl }

list_products-twice_example :
    let items = fetched browsing (normalize_query browsing cheap_first) any shop in
    let (r, w') = list_products browsing none cheap_first (world shop) in
    (r ≡ ok (page_with items (normalize_query browsing cheap_first) 1 "miss-populated"))
    × ((lookup (lock_key (query_key 1 (normalize_query browsing cheap_first))) w'.redis.entries
          ≡ none)
        × ((list_products browsing none cheap_first w').0
            ≡ ok (page_with items (normalize_query browsing cheap_first) 1 "hit")))
list_products-twice_example =
    list_products-twice browsing none refl refl cheap_first (world shop) ((refl, tt), (tt, tt))
      browsing-IsCold

page_of-IsOrdered_example :
    IsOrdered (NotBefore (price_cents_of shop)) (page_of browsing normal any shop)
    × IsOrdered
        (NotAfter (price_cents_of shop))
        (page_of browsing (record normal { sort = "price_desc" }) any shop)
    × IsOrdered
        (NotAfter (popularity_of shop))
        (page_of browsing (record normal { sort = "relevance" }) any shop)
page_of-IsOrdered_example = page_of-IsOrdered browsing normal any shop

first_pages-cover_example :
    (first_pages browsing normal any shop 1 ≡ in_order browsing normal any shop)
    × (count (λ p. p.active) (first_pages browsing normal any shop 1)
        ≡ count (λ p. p.active) (matching browsing normal any shop))
unfolding is_match
first_pages-cover_example =
    first_pages-cover browsing normal any shop 1 (λ p. p.active) (omega arith)

-- The database fails the query for products.
abbrev failing : Browsing
failing = record browsing { query_fails = true }

failing-IsCold : IsCold failing cheap_first (world shop)
unfolding lookup
failing-IsCold = record { ready = refl; no_page = refl; lock_free = refl }

list_products_fails_example :
    let (r, w') = list_products failing none cheap_first (world shop) in
    (r ≡ err (other "database")) × (lookup "k" w'.redis.entries ≡ lookup "k" []) × (w'.db ≡ shop)
list_products_fails_example =
    list_products_fails failing none refl refl cheap_first (world shop) "k" failing-IsCold

-- The card is missing in Redis, and is fetched under the lock.
abbrev hydrated_one : HydratedProducts
hydrated_one = record {
  items = to_list_item shop (a_product "case-a") ∷ [];
  missing_product_card_ids = [];
}

hydrated_once : (hydrate_products browsing none 1 ("case-a" ∷ []) (world shop)).0 ≡ ok hydrated_one
unfolding hydrate_products hydrate_found hydrate_missing fetch_missing fetch_products page_of
    is_match comes_first collect add_all ordered cache_cards cache_product_card get_json_many
    set_json acquire_lock release_lock command observe_redis record_lookups record_lookup start_span
    lookup insert remove sort insert_sorted hydration_lock_key card_key decimal join to_list_item
hydrated_once = refl
