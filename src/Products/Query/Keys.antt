-- ===== src/Products/Query/Keys.antt =====
-- The keys of pages in Redis: `buildProductsQueryCacheKey` of apps/api/src/products/products.service.ts.
use text.Mathlib.TextLemmas.{append_cancel_left, append_cancel_right}
use casecellshop.Base.{
  ℕ, String, false, ◌≡◌, refl, inl, inr, decimal, decimal_inj, ◌==◌, eq_iff, arith, Bool-cases,
}
use casecellshop.Cache.Keys.{has_colon, named-split, has_colon-decimal}
use casecellshop.Products.Query.{NormalizedQuery, query_key, or_all}

-- The text has no colon and is not the word that stands for no filter.
pub record IsPlain (text : String) : Type 0 where
  pub no_colon : has_colon text ≡ false
  pub not_all : (text == "all") ≡ false

has_colon-or_all : (text : String) → IsPlain text → has_colon (or_all text) ≡ false
has_colon-or_all text p = elim (Bool-cases (text == "")) [
  | inl empty ↦ rw empty refl
  | inr full ↦ rw full p.no_colon
]

or_all_inj : (s t : String) → IsPlain s → IsPlain t → or_all s ≡ or_all t → s ≡ t
or_all_inj s t p q e =
    ground
      (arith, eq_iff s "", eq_iff t "", eq_iff s "all", eq_iff t "all", p.not_all, q.not_all, e)

-- No text of the query has a colon, and no filter is the word `all`.
pub record IsPlainQuery (query : NormalizedQuery) : Type 0 where
  pub brand_plain : IsPlain query.brand
  pub device_plain : IsPlain query.device
  pub sort_plain : has_colon query.sort ≡ false

-- Two plain queries have the same key only if they are of the same version of the catalogue and agree in
-- every field.
pub query_key_inj :
    (v v' : ℕ) (q q' : NormalizedQuery)
    → IsPlainQuery q
    → IsPlainQuery q'
    → query_key v q ≡ query_key v' q'
    → (v ≡ v') × (q ≡ q')
unfolding query_key
query_key_inj v v' q q' p p' e =
    let e0 = append_cancel_left "products:query:v" _ _ e in
    let (version, e1) =
      named-split "brand=" _ _ _ _ (has_colon-decimal v) (has_colon-decimal v') e0 in
    let (brand, e2) =
      named-split "device=" _ _ _ _ (has_colon-or_all q.brand p.brand_plain)
        (has_colon-or_all q'.brand p'.brand_plain) e1 in
    let (device, e3) =
      named-split "sort=" _ _ _ _ (has_colon-or_all q.device p.device_plain)
        (has_colon-or_all q'.device p'.device_plain) e2 in
    let (sort, e4) = named-split "page=" _ _ _ _ p.sort_plain p'.sort_plain e3 in
    let (page, e5) =
      named-split "size=" _ _ _ _ (has_colon-decimal q.page) (has_colon-decimal q'.page) e4 in
    let size = append_cancel_right (decimal q.page_size) (decimal q'.page_size) "" e5 in
    let same_brand = or_all_inj q.brand q'.brand p.brand_plain p'.brand_plain brand in
    let same_device = or_all_inj q.device q'.device p.device_plain p'.device_plain device in
    let same_page = decimal_inj q.page q'.page page in
    let same_size = decimal_inj q.page_size q'.page_size size in
    (
      decimal_inj v v' version,
      λ i. record {
        brand = same_brand i;
        device = same_device i;
        sort = sort i;
        page = same_page i;
        page_size = same_size i;
      },
    )
