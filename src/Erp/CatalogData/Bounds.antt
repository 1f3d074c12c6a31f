-- ===== src/Erp/CatalogData/Bounds.antt =====
-- The large catalogue of prisma/catalog-data.ts.
use Prim.Native.Nat.{◌%◌}
use text.Mathlib.TextLemmas.{append_cancel_left, append_cancel_right}
use casecellshop.Base.{
  ℕ, zero, suc, ◌+◌, ◌<◌, ◌≤◌, String, false, ◌≡◌, refl, sym, ap, ◌∙◌, inl, inr, some, List, [],
  ◌∷◌, map, decimal, decimal_inj, length, All, All-weaken, contains, arith, ◌==◌, eq_iff,
  Bool-cases,
}
use casecellshop.Checkout.Request.Locks.{IsDistinct}
use casecellshop.Erp.Service.{ErpCatalogProduct, ErpCatalogCompatibility}
use casecellshop.Erp.CatalogData.{
  devices, device_at, seed_id, seed_product, seed_at, prepend, seeds_from, build_large_catalog,
}

seed_id_inj : (v v' : ℕ) → seed_id v ≡ seed_id v' → v ≡ v'
seed_id_inj v v' e =
    decimal_inj v v'
      (append_cancel_right (decimal v) (decimal v') "" (append_cancel_left "prod_seed_" _ _ e))

-- A product of the catalogue from a number on.
abbrev pub IsSeed : ℕ → ErpCatalogProduct → Type 0
IsSeed from p =
    (variant : ℕ) × (device : ErpCatalogCompatibility) × (from < variant)
    × (p ≡ seed_product variant device)

device_found :
    (index : ℕ) → (device : ErpCatalogCompatibility) × (device_at (index % 5) devices ≡ some device)
device_found index = found (index % 5) (omega arith)
  where
    found :
        (n : ℕ) → n < 5 → (device : ErpCatalogCompatibility) × (device_at n devices ≡ some device)
    found zero few = (_, refl)
    found (suc zero) few = (_, refl)
    found (suc (suc zero)) few = (_, refl)
    found (suc (suc (suc zero))) few = (_, refl)
    found (suc (suc (suc (suc zero)))) few = (_, refl)
    found (suc (suc (suc (suc (suc n))))) few = let clash : ⊥ = omega (arith, few) in absurd clash

abbrev pub ids_of : List ErpCatalogProduct → List String
ids_of = map (λ (p : ErpCatalogProduct). p.id)

contains-later :
    (from : ℕ) (products : List ErpCatalogProduct)
    → All (IsSeed from) products
    → contains (seed_id from) (ids_of products) ≡ false
contains-later from [] a = refl
contains-later from (p ∷ products) ((v, device, later, is), a) =
    let named : p.id ≡ seed_id v = ap (λ (q : ErpCatalogProduct). q.id) is in
    elim (Bool-cases (p.id == seed_id from)) [
      | inl same ↦
          let clash : ⊥ =
            omega (
              arith,
              later,
              seed_id_inj v from (sym named ∙ (eq_iff p.id (seed_id from)).0 same),
            ) in
          absurd clash
      | inr other ↦ rw other (contains-later from products a)
    ]

-- The products are as many as asked for, each with a number of its own above the first, and no two have
-- the same id.
pub record Seeds (from size : ℕ) (products : List ErpCatalogProduct) : Type 0 where
  pub has_size : length products ≡ size
  pub are_seeds : All (IsSeed from) products
  pub are_distinct : IsDistinct (ids_of products)

seeds_from-Seeds :
    (index left : ℕ)
    → (products : List ErpCatalogProduct) × (seeds_from index left ≡ some products)
      × Seeds index left products
unfolding seeds_from
seeds_from-Seeds index zero =
    ([], refl, record { has_size = refl; are_seeds = tt; are_distinct = tt })
seeds_from-Seeds index (suc left) =
    let (device, found) = device_found index in
    let (rest, is, s) = seeds_from-Seeds (index + 1) left in
    (
      seed_product (index + 1) device ∷ rest,
      ap (λ d. prepend (seed_at index d) (seeds_from (index + 1) left)) found
          ∙ ap (prepend (some (seed_product (index + 1) device))) is,
      record {
        has_size = omega (arith, s.has_size);
        are_seeds = (
          (index + 1, device, omega arith, refl),
          All-weaken (IsSeed (index + 1)) (IsSeed index) rest
              (λ p seed. let (v, d, later, same) = seed in (v, d, omega (arith, later), same))
              s.are_seeds,
        );
        are_distinct = (contains-later (index + 1) rest s.are_seeds, s.are_distinct);
      },
    )

-- A price of 39.90 to 84.90, a stock of 3 to 42, and one compatible device.
abbrev pub IsInRange : ErpCatalogProduct → Type 0
IsInRange p =
    (3990 ≤ p.price_cents)
    × (p.price_cents ≤ 8490)
    × (3 ≤ p.erp_qty)
    × (p.erp_qty ≤ 42)
    × (length p.compatibilities ≡ 1)

IsSeed-IsInRange : (from : ℕ) (p : ErpCatalogProduct) → IsSeed from p → IsInRange p
IsSeed-IsInRange from p (v, device, later, is) =
    let price = ap (λ (q : ErpCatalogProduct). q.price_cents) is in
    let stock = ap (λ (q : ErpCatalogProduct). q.erp_qty) is in
    (
      omega (arith, price),
      omega (arith, price),
      omega (arith, stock),
      omega (arith, stock),
      ap (λ (q : ErpCatalogProduct). length q.compatibilities) is,
    )

-- The large catalogue of any size is built without an error: it has that many products, no two with the
-- same id, each with a price from 3990 to 8490 cents, a stock of 3 to 42, and one compatible device.
pub build_large_catalog-IsInRange :
    (size : ℕ)
    → (products : List ErpCatalogProduct) × (build_large_catalog size ≡ some products)
      × (length products ≡ size)
      × IsDistinct (ids_of products)
      × All IsInRange products
unfolding build_large_catalog
build_large_catalog-IsInRange size =
    let (products, is, s) = seeds_from-Seeds 0 size in
    (
      products,
      is,
      s.has_size,
      s.are_distinct,
      All-weaken (IsSeed 0) IsInRange products (IsSeed-IsInRange 0) s.are_seeds,
    )
