-- ===== src/Products/Fetch/Pages.antt =====
-- The rows of a page: `fetchProducts` of apps/api/src/products/products.service.ts.
use casecellshop.Base.{
  ℕ, zero, suc, ◌-◌, ◌*◌, ◌≤◌, String, Bool, true, false, ◌≡◌, refl, inl, inr, List, [], ◌∷◌, map,
  arith, length, take, drop, select, sort, insert_sorted, contains, ◌==◌, eq_iff, Bool-cases, All,
  ◌≢◌, is_some, find, Option-cases, some, if◌then◌else◌, All-weaken, All-IsIn, IsIn,
}
use casecellshop.Checkout.Request.Locks.{IsDistinct}
use casecellshop.Store.{Db, Product, ProductCompatibility, DeviceModel}
use casecellshop.Products.Browsing.{Browsing}
use casecellshop.Products.Query.{NormalizedQuery}
use casecellshop.Products.Fetch.{fits, has_brand, to_list_item, is_match, comes_first, page_of}
use casecellshop.Products.Listing.{item_ids}

-- The row's id is another.
abbrev HasOther : String → Product → Type 0
HasOther id p = (p.id == id) ≡ false

-- No two rows have the same id.
abbrev pub HasOneOfEach : List Product → Type 0
HasOneOfEach [] = Unit
HasOneOfEach (p ∷ rows) = All (HasOther p.id) rows × HasOneOfEach rows

-- What holds of every row, and that no id stands twice, is kept by a selection, an order and a page.
module _ (P : Product → Type 0) (test : Product → Bool) (le : Product → Product → Bool) where
  select-All :
      (rows : List Product) → All P rows → All (λ p. P p × (test p ≡ true)) (select test rows)
  select-All [] a = tt
  select-All (p ∷ rows) (h, a) = elim (Bool-cases (test p)) [
    | inl found ↦ rw found ((h, found), select-All rows a)
    | inr skipped ↦ rw skipped (select-All rows a)
  ]

  pub insert_sorted-All :
      (p : Product) (rows : List Product) → P p → All P rows → All P (insert_sorted le p rows)
  unfolding insert_sorted
  insert_sorted-All p [] h a = (h, tt)
  insert_sorted-All p (q ∷ rows) h (k, a) = elim (Bool-cases (le p q)) [
    | inl first ↦ rw first (h, (k, a))
    | inr later ↦ rw later (k, insert_sorted-All p rows h a)
  ]

  sort-All : (rows : List Product) → All P rows → All P (sort le rows)
  unfolding sort
  sort-All [] a = tt
  sort-All (p ∷ rows) (h, a) = insert_sorted-All p (sort le rows) h (sort-All rows a)

  drop-All : (n : ℕ) (rows : List Product) → All P rows → All P (drop n rows)
  drop-All zero rows a = a
  drop-All (suc n) [] a = tt
  drop-All (suc n) (p ∷ rows) (h, a) = drop-All n rows a

  pub take-All : (n : ℕ) (rows : List Product) → All P rows → All P (take n rows)
  take-All zero rows a = tt
  take-All (suc n) [] a = tt
  take-All (suc n) (p ∷ rows) (h, a) = (h, take-All n rows a)

module _ (test : Product → Bool) (le : Product → Product → Bool) where
  select-HasOneOfEach : (rows : List Product) → HasOneOfEach rows → HasOneOfEach (select test rows)
  select-HasOneOfEach [] d = tt
  select-HasOneOfEach (p ∷ rows) (new, d) = elim (Bool-cases (test p)) [
    | inl found ↦ rw found (
      All-weaken (λ q. HasOther p.id q × (test q ≡ true)) (HasOther p.id) (select test rows)
          (λ q h. h.0) (select-All (HasOther p.id) test le rows new),
      select-HasOneOfEach rows d,
    )
    | inr skipped ↦ rw skipped (select-HasOneOfEach rows d)
  ]

  insert_sorted-HasOneOfEach :
      (p : Product) (rows : List Product)
      → All (HasOther p.id) rows
      → HasOneOfEach rows
      → HasOneOfEach (insert_sorted le p rows)
  unfolding insert_sorted
  insert_sorted-HasOneOfEach p [] new d = (tt, tt)
  insert_sorted-HasOneOfEach p (q ∷ rows) (other, new) (later_ones, d) =
      elim (Bool-cases (le p q)) [
        | inl first ↦ rw first ((other, new), (later_ones, d))
        | inr later ↦ rw later (
          insert_sorted-All (HasOther q.id) test le p rows
              (ground (arith, eq_iff p.id q.id, eq_iff q.id p.id, other)) later_ones,
          insert_sorted-HasOneOfEach p rows new d,
        )
      ]

  sort-HasOneOfEach : (rows : List Product) → HasOneOfEach rows → HasOneOfEach (sort le rows)
  unfolding sort
  sort-HasOneOfEach [] d = tt
  sort-HasOneOfEach (p ∷ rows) (new, d) =
      insert_sorted-HasOneOfEach p (sort le rows) (sort-All (HasOther p.id) test le rows new)
        (sort-HasOneOfEach rows d)

  drop-HasOneOfEach : (n : ℕ) (rows : List Product) → HasOneOfEach rows → HasOneOfEach (drop n rows)
  drop-HasOneOfEach zero rows d = d
  drop-HasOneOfEach (suc n) [] d = tt
  drop-HasOneOfEach (suc n) (p ∷ rows) (new, d) = drop-HasOneOfEach n rows d

  take-HasOneOfEach : (n : ℕ) (rows : List Product) → HasOneOfEach rows → HasOneOfEach (take n rows)
  take-HasOneOfEach zero rows d = tt
  take-HasOneOfEach (suc n) [] d = tt
  take-HasOneOfEach (suc n) (p ∷ rows) (new, d) =
      (take-All (HasOther p.id) test le n rows new, take-HasOneOfEach n rows d)

length-take : (n : ℕ) (rows : List Product) → length (take n rows) ≤ n
length-take zero rows = omega arith
length-take (suc n) [] = omega arith
length-take (suc n) (p ∷ rows) = omega (arith, length-take n rows)

contains-item_ids :
    (db : Db) (id : String) (rows : List Product)
    → All (HasOther id) rows
    → contains id (item_ids (map (to_list_item db) rows)) ≡ false
unfolding to_list_item
contains-item_ids db id [] a = refl
contains-item_ids db id (p ∷ rows) (other, a) = rw other (contains-item_ids db id rows a)

pub item_ids-IsDistinct :
    (db : Db) (rows : List Product)
    → HasOneOfEach rows
    → IsDistinct (item_ids (map (to_list_item db) rows))
unfolding to_list_item
item_ids-IsDistinct db [] d = tt
item_ids-IsDistinct db (p ∷ rows) (new, d) =
    (contains-item_ids db p.id rows new, item_ids-IsDistinct db rows d)

-- The product is listed as compatible with a device model that has the slug.
abbrev pub FitsDevice : String → Db → Product → Type 0
FitsDevice slug db p =
    (c : ProductCompatibility) × (d : DeviceModel) × IsIn db.compatibilities c
    × IsIn db.device_models d
    × (c.product_id ≡ p.id)
    × (d.id ≡ c.device_model_id)
    × (d.slug ≡ slug)

-- The product is of a brand that the database takes for this one.
abbrev pub IsOfBrand : Browsing → String → Product → Type 0
IsOfBrand b brand p = (name : String) × (p.brand ≡ some name) × (b.same_brand brand name ≡ true)

-- The row is one of the products; it is active, has the brand and the device that the query names, if it names
-- any, and an id that is asked for.
pub record IsOffered (b : Browsing) (query : NormalizedQuery) (extra : String → Bool) (db : Db)
    (p : Product) : Type 0 where
  pub is_product : IsIn db.products p
  pub is_active : p.active ≡ true
  pub is_asked_for : extra p.id ≡ true
  pub has_brand : query.brand ≢ "" → IsOfBrand b query.brand p
  pub has_device : query.device ≢ "" → FitsDevice query.device db p

find-IsIn :
    {A : Type 0} (test : A → Bool) (rows : List A)
    → is_some (find test rows) ≡ true
    → (row : A) × IsIn rows row × (test row ≡ true)
find-IsIn test [] h = cc
find-IsIn test (row ∷ rows) h = elim (Bool-cases (test row)) [
  | inl hit ↦ (row, inl refl, hit)
  | inr missed ↦
      let (other, there, hit) = find-IsIn test rows (rw missed at h) in (other, inr there, hit)
]

fits-FitsDevice :
    (slug : String) (db : Db) (p : Product) → fits slug db p ≡ true → FitsDevice slug db p
fits-FitsDevice slug db p h =
    let (c, listed, both) = find-IsIn _ db.compatibilities h in
    let its : (c.product_id == p.id) ≡ true = ground arith in
    let (d, known, same) = find-IsIn _ db.device_models (rw its at both) in
    let joined : (d.id == c.device_model_id) ≡ true = ground arith in
    let named : (d.slug == slug) ≡ true = ground arith in
    (
      c,
      d,
      listed,
      known,
      (eq_iff c.product_id p.id).0 its,
      (eq_iff d.id c.device_model_id).0 joined,
      (eq_iff d.slug slug).0 named,
    )

has_brand-IsOfBrand :
    (b : Browsing) (brand : String) (p : Product)
    → has_brand b brand p.brand ≡ true
    → IsOfBrand b brand p
has_brand-IsOfBrand b brand p h = elim (Option-cases p.brand) [
  | inl unnamed ↦ cc (rw unnamed at h)
  | inr (name, named) ↦ (name, named, rw named at h)
]

if-named :
    (text : String) (test : Bool)
    → (if text == "" then true else test) ≡ true
    → text ≢ ""
    → test ≡ true
if-named text test h named = ground (arith, eq_iff text "")

module _ (b : Browsing) (query : NormalizedQuery) (extra : String → Bool) (db : Db)
    (p : Product) where
  is_match-IsOffered :
      IsIn db.products p → is_match b query extra db p ≡ true → IsOffered b query extra db p
  unfolding is_match
  is_match-IsOffered there h = record {
    is_product = there;
    is_active = ground arith;
    is_asked_for = ground arith;
    has_brand =
        λ named. has_brand-IsOfBrand b query.brand p (if-named query.brand _ (ground arith) named);
    has_device =
        λ named. fits-FitsDevice query.device db p (if-named query.device _ (ground arith) named);
  }

-- Where no two products have the same id, a page has at most as many rows as the query asks for; each is one of
-- the products, is active, is of the brand that the query names, if any, and is listed for a device model with
-- the slug that it names, if any; and no two rows have the same id.
pub page_of-All :
    (b : Browsing) (query : NormalizedQuery) (extra : String → Bool) (db : Db)
    → HasOneOfEach db.products
    → let rows = page_of b query extra db in
      (length rows ≤ query.page_size) × (All (IsOffered b query extra db) rows × HasOneOfEach rows)
unfolding page_of
page_of-All b query extra db d =
    let test = is_match b query extra db in
    let le = comes_first b db query.sort in
    let chosen = select test db.products in
    let start = (query.page - 1) * query.page_size in
    let P = IsOffered b query extra db in
    let M : Product → Type 0 = λ p. IsIn db.products p × (test p ≡ true) in
    (
      length-take query.page_size (drop start (sort le chosen)),
      (
        All-weaken _ P _ (λ p h. is_match-IsOffered b query extra db p h.0 h.1)
            (take-All M test le query.page_size (drop start (sort le chosen)) (
              drop-All M test le start (sort le chosen) (
                sort-All M test le chosen
                  (select-All (IsIn db.products) test le db.products (All-IsIn db.products))))),
        take-HasOneOfEach test le query.page_size (drop start (sort le chosen)) (
            drop-HasOneOfEach test le start (sort le chosen)
              (sort-HasOneOfEach test le chosen (select-HasOneOfEach test le db.products d))),
      ),
    )
