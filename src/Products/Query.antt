-- ===== src/Products/Query.antt =====
-- The query of `listProducts` in apps/api/src/products/products.service.ts: its normal form and the key
-- of its page in Redis.
pub mod Bounds
pub mod Keys
use casecellshop.Base.{
  ℕ, zero, suc, String, Bool, Option, none, some, [], ◌∷◌, concat, decimal, or_else, leb,
  if◌then◌else◌, ◌==◌,
}
use casecellshop.Products.Browsing.{Browsing}

-- A number of the query: left out, an integer from 0 on, or a value that is neither above 0 nor an
-- integer from 0 on, such as -1 or NaN. Fractions above 0 and Infinity, which the source passes on as they
-- are, a size up to 50, have no value here.
pub data QueryNumber : Type 0 where
  missing : QueryNumber
  whole : ℕ → QueryNumber
  not_positive : QueryNumber

pub record ProductQuery : Type 0 where
  pub brand : Option String
  pub device : Option String
  pub sort : Option String
  pub page : QueryNumber
  pub page_size : QueryNumber

-- `Required<ProductQuery>`. The type of `sort` is not checked when a request comes in.
pub record NormalizedQuery : Type 0 where
  pub brand : String
  pub device : String
  pub sort : String
  pub page : ℕ
  pub page_size : ℕ

abbrev clean : Browsing → Option String → String
clean b none = ""
clean b (some text) = b.lower (b.trim text)

-- `value && value > 0 ? value : other`
abbrev pub positive_or : ℕ → QueryNumber → ℕ
positive_or other missing = other
positive_or other (whole n) = elim n [ zero ↦ other | suc k ↦ suc k ]
positive_or other not_positive = other

-- `Math.min`
abbrev pub min : ℕ → ℕ → ℕ
min a b = if leb a b then a else b

abbrev pub page_size_of : QueryNumber → ℕ
page_size_of (whole n) = elim n [ zero ↦ 24 | suc k ↦ min (suc k) 50 ]
page_size_of _ = 24

unfoldable pub normalize_query : Browsing → ProductQuery → NormalizedQuery
normalize_query b query = record {
  brand = clean b query.brand;
  device = clean b query.device;
  sort = or_else query.sort "relevance";
  page = positive_or 1 query.page;
  page_size = page_size_of query.page_size;
}

-- `value || 'all'`
abbrev pub or_all : String → String
or_all text = if text == "" then "all" else text

unfoldable pub query_key : ℕ → NormalizedQuery → String
query_key version query = concat (
    "products:query:v"
    ∷ decimal version
    ∷ ":brand="
    ∷ or_all query.brand
    ∷ ":device="
    ∷ or_all query.device
    ∷ ":sort="
    ∷ query.sort
    ∷ ":page="
    ∷ decimal query.page
    ∷ ":size="
    ∷ decimal query.page_size
    ∷ [])
