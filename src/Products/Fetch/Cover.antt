-- ===== src/Products/Fetch/Cover.antt =====
-- The pages of a query one after the other: `fetchProducts` of apps/api/src/products/products.service.ts.
use casecellshop.Base.{
  ℕ, zero, suc, ◌+◌, ◌-◌, ◌*◌, ◌≤◌, String, Bool, ◌≡◌, refl, sym, ap, ◌∙◌, inl, inr, List, [], ◌∷◌,
  ◌++◌, arith, take, drop, length, select, sort, insert_sorted, count, Bool-cases,
}
use casecellshop.Store.{Db, Product}
use casecellshop.Products.Browsing.{Browsing}
use casecellshop.Products.Query.{NormalizedQuery}
use casecellshop.Products.Fetch.{is_match, comes_first, page_of}

-- The first pages, from the first on.
unfoldable pub first_pages : Browsing → NormalizedQuery → (String → Bool) → Db → ℕ → List Product
unfolding page_of
first_pages b query extra db zero = []
first_pages b query extra db (suc n) =
    first_pages b query extra db n ++ page_of b (record query { page = n + 1 }) extra db

take-nil : (n : ℕ) → take {A = Product} n [] ≡ []
take-nil zero = refl
take-nil (suc n) = refl

take-append :
    (k n : ℕ) (rows : List Product) → take k rows ++ take n (drop k rows) ≡ take (k + n) rows
take-append zero n rows = ap (λ m. take m rows) (omega arith)
take-append (suc k) n [] = take-nil n ∙ sym (take-nil (suc k + n))
take-append (suc k) n (p ∷ rows) =
    let sum : suc (k + n) ≡ suc k + n = omega arith in
    ap (λ l. p ∷ l) (take-append k n rows) ∙ ap (λ m. take m (p ∷ rows)) sum

take-all : (n : ℕ) (rows : List Product) → length rows ≤ n → take n rows ≡ rows
take-all n [] enough = take-nil n
take-all zero (p ∷ rows) enough = let clash : ⊥ = omega (arith, enough) in absurd clash
take-all (suc n) (p ∷ rows) enough = ap (λ l. p ∷ l) (take-all n rows (omega (arith, enough)))

module _ (le : Product → Product → Bool) (test : Product → Bool) where
  count-insert_sorted :
      (p : Product) (rows : List Product)
      → count test (insert_sorted le p rows) ≡ count test (p ∷ rows)
  unfolding insert_sorted
  count-insert_sorted p [] = refl
  count-insert_sorted p (q ∷ rows) = elim (Bool-cases (le p q)) [
    | inl first ↦ rw first refl
    | inr later ↦ rw later (omega (arith, count-insert_sorted p rows))
  ]

  count-sort : (rows : List Product) → count test (sort le rows) ≡ count test rows
  unfolding sort
  count-sort [] = refl
  count-sort (p ∷ rows) = omega (arith, count-insert_sorted p (sort le rows), count-sort rows)

module _ (le : Product → Product → Bool) where
  length-insert_sorted :
      (p : Product) (rows : List Product) → length (insert_sorted le p rows) ≡ length rows + 1
  unfolding insert_sorted
  length-insert_sorted p [] = refl
  length-insert_sorted p (q ∷ rows) = elim (Bool-cases (le p q)) [
    | inl first ↦ rw first (omega arith)
    | inr later ↦ rw later (omega (arith, length-insert_sorted p rows))
  ]

  length-sort : (rows : List Product) → length (sort le rows) ≡ length rows
  unfolding sort
  length-sort [] = refl
  length-sort (p ∷ rows) = omega (arith, length-insert_sorted p (sort le rows), length-sort rows)

module _ (b : Browsing) (query : NormalizedQuery) (extra : String → Bool) (db : Db) where
  -- All products that are for sale and fit the query, in its order.
  abbrev pub matching : List Product
  matching = select (is_match b query extra db) db.products

  abbrev pub in_order : List Product
  in_order = sort (comes_first b db query.sort) matching

  first_pages-take : (n : ℕ) → first_pages b query extra db n ≡ take (n * query.page_size) in_order
  unfolding first_pages page_of is_match
  first_pages-take zero =
      let none : 0 ≡ 0 * query.page_size = omega arith in ap (λ k. take k in_order) none
  first_pages-take (suc n) =
      let next : n * query.page_size + query.page_size ≡ suc n * query.page_size = omega arith in
      let page_start : n + 1 - 1 ≡ n = omega arith in
      (λ i.
        first_pages-take n i
        ++ take query.page_size (drop (page_start i * query.page_size) in_order))
      ∙ take-append (n * query.page_size) query.page_size in_order
      ∙ ap (λ k. take k in_order) next

  -- Enough pages, one after the other, are the matching products in the order of the query, and a test
  -- holds of as many of their rows as it does of matching products.
  pub first_pages-cover :
      (n : ℕ) (test : Product → Bool)
      → length matching ≤ n * query.page_size
      → (first_pages b query extra db n ≡ in_order)
        × (count test (first_pages b query extra db n) ≡ count test matching)
  first_pages-cover n test enough =
      let le = comes_first b db query.sort in
      let all : first_pages b query extra db n ≡ in_order =
        first_pages-take n
        ∙ take-all (n * query.page_size) in_order
            (omega (arith, length-sort le matching, enough)) in
      (all, ap (count test) all ∙ count-sort le test matching)
