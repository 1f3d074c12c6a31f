-- ===== src/Products/Query/Bounds.antt =====
-- The bounds of a normalized query: `normalizeQuery` of apps/api/src/products/products.service.ts.
use casecellshop.Base.{zero, suc, ◌≤◌, arith}
use casecellshop.Products.Browsing.{Browsing}
use casecellshop.Products.Query.{
  QueryNumber, ProductQuery, NormalizedQuery, normalize_query, positive_or, page_size_of, missing,
  whole, not_positive,
}

pub record IsInRange (query : NormalizedQuery) : Type 0 where
  pub page_from_one : 1 ≤ query.page
  pub size_from_one : 1 ≤ query.page_size
  pub size_up_to_fifty : query.page_size ≤ 50

positive_or_lem : (number : QueryNumber) → 1 ≤ positive_or 1 number
positive_or_lem missing = omega arith
positive_or_lem (whole zero) = omega arith
positive_or_lem (whole (suc k)) = omega arith
positive_or_lem not_positive = omega arith

page_size_of_lem : (number : QueryNumber) → (1 ≤ page_size_of number) × (page_size_of number ≤ 50)
page_size_of_lem missing = (omega arith, omega arith)
page_size_of_lem (whole zero) = (omega arith, omega arith)
page_size_of_lem (whole (suc k)) = (ground arith, ground arith)
page_size_of_lem not_positive = (omega arith, omega arith)

-- Where the request's page and size are each left out, whole or not above 0, a normalized query asks for a page
-- from the first on, of one to fifty products.
pub normalize_query-IsInRange :
    (b : Browsing) (query : ProductQuery) → IsInRange (normalize_query b query)
unfolding normalize_query
normalize_query-IsInRange b query = record {
  page_from_one = positive_or_lem query.page;
  size_from_one = (page_size_of_lem query.page_size).0;
  size_up_to_fifty = (page_size_of_lem query.page_size).1;
}
