-- ===== src/Checkout/Request/Locks.antt =====
-- The order in which a checkout locks its products: `inventoryLockKeys` of
-- apps/api/src/checkout/checkout.service.ts.
use casecellshop.Base.{
  insert_sorted, sort, String, Bool, true, false, ◌≡◌, refl, ◌∙◌, ◌⊎◌, inl, inr, List, [], ◌∷◌,
  contains, not, ◌&&◌, eq_iff, eq_refl, Bool-cases, All, All-weaken, arith,
}
use casecellshop.Checkout.Request.{
  Platform, CheckoutItem, product_ids, distinct_from, inventory_lock_keys,
}

-- A test that compares any two texts, transitively.
pub record IsOrder (le : String → String → Bool) : Type 0 where
  pub total : (a b : String) → (le a b ≡ true) ⊎ (le b a ≡ true)
  pub trans : (a b c : String) → le a b ≡ true → le b c ≡ true → le a c ≡ true

abbrev pub IsSorted : (String → String → Bool) → List String → Type 0
IsSorted le [] = Unit
IsSorted le (x ∷ xs) = All (λ y. le x y ≡ true) xs × IsSorted le xs

abbrev pub IsDistinct : List String → Type 0
IsDistinct [] = Unit
IsDistinct (x ∷ xs) = (contains x xs ≡ false) × IsDistinct xs

module _ (le : String → String → Bool) where
  insert_sorted-All :
      (P : String → Type 0) (x : String) (xs : List String)
      → P x
      → All P xs
      → All P (insert_sorted le x xs)
  unfolding insert_sorted
  insert_sorted-All P x [] px a = (px, tt)
  insert_sorted-All P x (y ∷ ys) px (py, a) = elim (Bool-cases (le x y)) [
    | inl first ↦ rw first (px, (py, a))
    | inr later ↦ rw later (py, insert_sorted-All P x ys px a)
  ]

  insert_sorted-IsSorted :
      (x : String) (xs : List String)
      → IsOrder le
      → IsSorted le xs
      → IsSorted le (insert_sorted le x xs)
  unfolding insert_sorted
  insert_sorted-IsSorted x [] o s = (tt, tt)
  insert_sorted-IsSorted x (y ∷ ys) o (a, s) = elim (Bool-cases (le x y)) [
    | inl first ↦ rw first (
      (first, All-weaken (λ z. le y z ≡ true) (λ z. le x z ≡ true) ys (λ z. o.trans x y z first) a),
      (a, s),
    )
    | inr later ↦
        let before : le y x ≡ true = elim (o.total x y) [ inl e ↦ cc | inr e ↦ e ] in
        rw later
          (insert_sorted-All (λ z. le y z ≡ true) x ys before a, insert_sorted-IsSorted x ys o s)
  ]

  sort-IsSorted : (xs : List String) → IsOrder le → IsSorted le (sort le xs)
  unfolding sort
  sort-IsSorted [] o = tt
  sort-IsSorted (x ∷ xs) o = insert_sorted-IsSorted x (sort le xs) o (sort-IsSorted xs o)

  contains-insert_sorted :
      (id x : String) (xs : List String)
      → contains id (insert_sorted le x xs) ≡ contains id (x ∷ xs)
  unfolding insert_sorted
  contains-insert_sorted id x [] = refl
  contains-insert_sorted id x (y ∷ ys) = ground (arith, contains-insert_sorted id x ys)

  contains-sort : (id : String) (xs : List String) → contains id (sort le xs) ≡ contains id xs
  unfolding sort
  contains-sort id [] = refl
  contains-sort id (x ∷ xs) =
      ground (arith, contains-insert_sorted id x (sort le xs), contains-sort id xs)

  insert_sorted-IsDistinct :
      (x : String) (xs : List String)
      → contains x xs ≡ false
      → IsDistinct xs
      → IsDistinct (insert_sorted le x xs)
  unfolding insert_sorted
  insert_sorted-IsDistinct x [] n d = (refl, tt)
  insert_sorted-IsDistinct x (y ∷ ys) n (m, d) = elim (Bool-cases (le x y)) [
    | inl first ↦ rw first (n, (m, d))
    | inr later ↦ rw later (
      ground (arith, contains-insert_sorted y x ys, eq_iff x y, eq_iff y x),
      insert_sorted-IsDistinct x ys (ground (arith, eq_iff x y)) d,
    )
  ]

  sort-IsDistinct : (xs : List String) → IsDistinct xs → IsDistinct (sort le xs)
  unfolding sort
  sort-IsDistinct [] d = tt
  sort-IsDistinct (x ∷ xs) (n, d) =
      insert_sorted-IsDistinct x (sort le xs) (contains-sort x xs ∙ n) (sort-IsDistinct xs d)

contains-distinct_from :
    (id : String) (seen xs : List String)
    → contains id (distinct_from seen xs) ≡ (contains id xs && not (contains id seen))
unfolding distinct_from
contains-distinct_from id seen [] = refl
contains-distinct_from id seen (x ∷ xs) = ground (
  arith,
  contains-distinct_from id (x ∷ seen) xs,
  contains-distinct_from id seen xs,
  eq_iff x id,
  eq_iff id x,
)

distinct_from-IsDistinct : (seen xs : List String) → IsDistinct (distinct_from seen xs)
unfolding distinct_from
distinct_from-IsDistinct seen [] = tt
distinct_from-IsDistinct seen (x ∷ xs) = elim (Bool-cases (contains x seen)) [
  | inl known ↦ rw known (distinct_from-IsDistinct seen xs)
  | inr new ↦ rw new (
    ground (arith, contains-distinct_from x (x ∷ seen) xs, eq_refl x),
    distinct_from-IsDistinct (x ∷ seen) xs,
  )
]

-- Where the order of `sort` compares any two texts, transitively, the keys that a checkout locks are in
-- that order, each stands there once, and they are the ids of the ordered products.
pub inventory_lock_keys-IsSorted :
    (p : Platform) (items : List CheckoutItem)
    → IsOrder p.code_unit_le
    → let keys = inventory_lock_keys p items in
      IsSorted p.code_unit_le keys
      × (IsDistinct keys × ((id : String) → contains id keys ≡ contains id (product_ids items)))
unfolding inventory_lock_keys
inventory_lock_keys-IsSorted p items o =
    let ids = distinct_from [] (product_ids items) in
    (
      sort-IsSorted p.code_unit_le ids o,
      (
        sort-IsDistinct p.code_unit_le ids (distinct_from-IsDistinct [] (product_ids items)),
        λ id. ground (
          arith,
          contains-sort p.code_unit_le id ids,
          contains-distinct_from id [] (product_ids items),
        ),
      ),
    )
