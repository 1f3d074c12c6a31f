-- ===== src/Products/Fetch.antt =====
-- `fetchProducts` of apps/api/src/products/products.service.ts: the query for a page of products.
pub mod Pages
pub mod Order
pub mod Cover
use casecellshop.Base.{
  ℕ, ◌-◌, ◌*◌, String, Bool, true, false, ◌&&◌, ◌||◌, Option, none, some, List, [], ◌∷◌, map,
  or_else, is_some, ltb, eqb, select, find, sort, drop, take, if◌then◌else◌, ◌==◌,
}
use casecellshop.Action.{other, ok, err, Action}
use casecellshop.Store.{Db, Product, ProductPrice, ProductStats, Inventory}
use casecellshop.Cache.Entry.{ProductListItem}
use casecellshop.World.{World}
use casecellshop.Products.Browsing.{Browsing}
use casecellshop.Products.Query.{NormalizedQuery}

abbrev pub price_of : String → Db → Option ProductPrice
price_of id db = find (λ row. row.product_id == id) db.prices

abbrev pub stats_of : String → Db → Option ProductStats
stats_of id db = find (λ row. row.product_id == id) db.stats

abbrev pub stock_of : String → Db → Option Inventory
stock_of id db = find (λ row. row.product_id == id) db.inventory

abbrev option_field : {A : Type 0} → (A → ℕ) → Option A → Option ℕ
option_field f none = none
option_field f (some a) = some (f a)

abbrev pub price_cents_of : Db → Product → Option ℕ
price_cents_of db p = option_field (λ row. row.price_cents) (price_of p.id db)

abbrev pub popularity_of : Db → Product → Option ℕ
popularity_of db p = option_field (λ row. row.popularity_score) (stats_of p.id db)

-- An ascending order puts a missing value last, and so a descending one puts it first.
abbrev pub before : Option ℕ → Option ℕ → Bool
before (some a) (some b) = ltb a b
before (some a) none = true
before none o = false

abbrev pub same : Option ℕ → Option ℕ → Bool
same (some a) (some b) = eqb a b
same none none = true
same _ _ = false

-- `buildOrderBy`
unfoldable pub comes_first : Browsing → Db → String → Product → Product → Bool
comes_first b db sort p q =
    let price = price_cents_of db in
    let score = popularity_of db in
    let by_id = b.id_le p.id q.id in
    if sort == "price_asc"
    then before (price p) (price q) || (same (price p) (price q) && by_id)
    else (if sort == "price_desc"
        then before (price q) (price p) || (same (price q) (price p) && by_id)
        else before (score q) (score p)
          || (same (score q) (score p)
              && (ltb (b.updated_at q.id) (b.updated_at p.id)
                  || (eqb (b.updated_at q.id) (b.updated_at p.id) && by_id))))

-- A product of a device model with the slug.
abbrev pub fits : String → Db → Product → Bool
fits slug db p = is_some (
    find
      (λ row.
        row.product_id == p.id
        && is_some (find (λ d. d.id == row.device_model_id && d.slug == slug) db.device_models))
      db.compatibilities)

abbrev pub has_brand : Browsing → String → Option String → Bool
has_brand b brand none = false
has_brand b brand (some name) = b.same_brand brand name

-- The `where` clause. A condition for a brand and for a device stands there only where the query names one.
unfoldable pub is_match : Browsing → NormalizedQuery → (String → Bool) → Db → Product → Bool
is_match b query extra db p =
    p.active
    && (extra p.id
        && ((if query.brand == "" then true else has_brand b query.brand p.brand)
            && (if query.device == "" then true else fits query.device db p)))

abbrev quantity_of : Option Inventory → ℕ
quantity_of none = 0
quantity_of (some row) = row.available_qty

abbrev cents_of : Option ProductPrice → ℕ
cents_of none = 0
cents_of (some row) = row.price_cents

abbrev currency_of : Option ProductPrice → String
currency_of none = "BRL"
currency_of (some row) = row.currency

unfoldable pub to_list_item : Db → Product → ProductListItem
to_list_item db p = record {
  id = p.id;
  sku = p.sku;
  name = p.name;
  image_url = p.image_url;
  brand = p.brand;
  price_cents = cents_of (price_of p.id db);
  currency = currency_of (price_of p.id db);
  available_qty = quantity_of (stock_of p.id db);
  in_stock = ltb 0 (quantity_of (stock_of p.id db));
}

-- The page's rows: `extra` is `extraWhere`, as a test of the id.
unfoldable pub page_of : Browsing → NormalizedQuery → (String → Bool) → Db → List Product
page_of b query extra db = take query.page_size (
    drop ((query.page - 1) * query.page_size)
      (sort (comes_first b db query.sort) (select (is_match b query extra db) db.products)))

unfoldable pub fetch_products :
    Browsing → NormalizedQuery → (String → Bool) → Action World (List ProductListItem)
fetch_products b query extra w =
    if b.query_fails
    then (err (other "database"), w)
    else (ok (map (to_list_item w.db) (page_of b query extra w.db)), w)
