-- ===== src/Products/Fetch/Order.antt =====
-- The order of a page: `buildOrderBy` and the query of `fetchProducts` in
-- apps/api/src/products/products.service.ts.
use casecellshop.Base.{
  ℕ, zero, suc, ◌-◌, ◌*◌, String, Bool, true, false, ◌&&◌, ◌||◌, ◌≡◌, refl, inl, inr, Option, none,
  some, List, [], ◌∷◌, arith, take, drop, sort, insert_sorted, Bool-cases, All, All-weaken,
}
use casecellshop.Store.{Db, Product}
use casecellshop.Products.Browsing.{Browsing}
use casecellshop.Products.Query.{NormalizedQuery}
use casecellshop.Products.Fetch.{before, same, price_cents_of, popularity_of, comes_first, page_of}
use casecellshop.Products.Fetch.Pages.{insert_sorted-All, take-All}

-- Every row stands in the relation to all that follow it.
abbrev pub IsOrdered : (Product → Product → Type 0) → List Product → Type 0
IsOrdered R [] = Unit
IsOrdered R (p ∷ rows) = All (R p) rows × IsOrdered R rows

-- A sort by a test that decides for a transitive relation, one way or the other.
module _ (R : Product → Product → Type 0) (le : Product → Product → Bool)
    (first : (p q : Product) → le p q ≡ true → R p q)
    (second : (p q : Product) → le p q ≡ false → R q p)
    (trans : (p q r : Product) → R p q → R q r → R p r) where
  insert_sorted-IsOrdered :
      (p : Product) (rows : List Product) → IsOrdered R rows → IsOrdered R (insert_sorted le p rows)
  unfolding insert_sorted
  insert_sorted-IsOrdered p [] o = (tt, tt)
  insert_sorted-IsOrdered p (q ∷ rows) (a, o) = elim (Bool-cases (le p q)) [
    | inl early ↦ rw early (
      (first p q early, All-weaken (R q) (R p) rows (λ r. trans p q r (first p q early)) a),
      (a, o),
    )
    | inr late ↦ rw late (
      insert_sorted-All (R q) (λ r. true) le p rows (second p q late) a,
      insert_sorted-IsOrdered p rows o,
    )
  ]

  sort-IsOrdered : (rows : List Product) → IsOrdered R (sort le rows)
  unfolding sort
  sort-IsOrdered [] = tt
  sort-IsOrdered (p ∷ rows) = insert_sorted-IsOrdered p (sort le rows) (sort-IsOrdered rows)

  drop-IsOrdered : (n : ℕ) (rows : List Product) → IsOrdered R rows → IsOrdered R (drop n rows)
  drop-IsOrdered zero rows o = o
  drop-IsOrdered (suc n) [] o = tt
  drop-IsOrdered (suc n) (p ∷ rows) (a, o) = drop-IsOrdered n rows o

  take-IsOrdered : (n : ℕ) (rows : List Product) → IsOrdered R rows → IsOrdered R (take n rows)
  take-IsOrdered zero rows o = tt
  take-IsOrdered (suc n) [] o = tt
  take-IsOrdered (suc n) (p ∷ rows) (a, o) =
      (take-All (R p) (λ r. true) le n rows a, take-IsOrdered n rows o)

  page-IsOrdered :
      (start size : ℕ) (rows : List Product) → IsOrdered R (take size (drop start (sort le rows)))
  page-IsOrdered start size rows =
      take-IsOrdered size _ (drop-IsOrdered start _ (sort-IsOrdered rows))

-- What the first key of an order decides.
decided_yes :
    (a b : Option ℕ) (t : Bool) → (before a b || (same a b && t)) ≡ true → before b a ≡ false
decided_yes (some a) (some b) t yes_ = ground arith
decided_yes (some a) none t yes_ = refl
decided_yes none (some b) t yes_ = cc
decided_yes none none t yes_ = refl

decided_no :
    (a b : Option ℕ) (t : Bool) → (before a b || (same a b && t)) ≡ false → before a b ≡ false
decided_no a b t no_ = ground arith

not_before_trans : (a b c : Option ℕ) → before b a ≡ false → before c b ≡ false → before c a ≡ false
not_before_trans (some a) (some b) (some c) e f = ground arith
not_before_trans (some a) (some b) none e f = refl
not_before_trans (some a) none (some c) e f = cc
not_before_trans (some a) none none e f = refl
not_before_trans none (some b) (some c) e f = cc
not_before_trans none (some b) none e f = cc
not_before_trans none none (some c) e f = cc
not_before_trans none none none e f = refl

-- The second row's key does not come before the first's.
abbrev pub NotBefore : (Product → Option ℕ) → Product → Product → Type 0
NotBefore key p q = before (key q) (key p) ≡ false

abbrev pub NotAfter : (Product → Option ℕ) → Product → Product → Type 0
NotAfter key p q = before (key p) (key q) ≡ false

-- A page by ascending price never has a cheaper product after a dearer one, one by descending price never a
-- dearer one after a cheaper one, and one by relevance never a more popular one after a less popular one;
-- products without a price or a popularity count as above all others.
pub page_of-IsOrdered :
    (b : Browsing) (query : NormalizedQuery) (extra : String → Bool) (db : Db)
    → IsOrdered
        (NotBefore (price_cents_of db))
        (page_of b (record query { sort = "price_asc" }) extra db)
      × IsOrdered
          (NotAfter (price_cents_of db))
          (page_of b (record query { sort = "price_desc" }) extra db)
      × IsOrdered
          (NotAfter (popularity_of db))
          (page_of b (record query { sort = "relevance" }) extra db)
unfolding page_of comes_first
page_of-IsOrdered b query extra db =
    let start = (query.page - 1) * query.page_size in
    let price = price_cents_of db in
    let score = popularity_of db in
    (
      page-IsOrdered (NotBefore price) (comes_first b db "price_asc")
          (λ p q. decided_yes (price p) (price q) _) (λ p q. decided_no (price p) (price q) _)
          (λ p q r. not_before_trans (price p) (price q) (price r)) start query.page_size _,
      page-IsOrdered (NotAfter price) (comes_first b db "price_desc")
          (λ p q. decided_yes (price q) (price p) _) (λ p q. decided_no (price q) (price p) _)
          (λ p q r e f. not_before_trans (price r) (price q) (price p) f e) start query.page_size _,
      page-IsOrdered (NotAfter score) (comes_first b db "relevance")
          (λ p q. decided_yes (score q) (score p) _) (λ p q. decided_no (score q) (score p) _)
          (λ p q r e f. not_before_trans (score r) (score q) (score p) f e) start query.page_size _,
    )
