-- ===== src/Reconciliation/Catalog/Stock.antt =====
-- What the synchronisation of one product does to the stock.
use Prim.Native.Nat.{ℕ, ◌-◌}
use casecellshop.Base.{
  String, Bool, ◌≡◌, refl, ap, ◌∙◌, some, none, true, List, [], ◌∷◌, ◌++◌, inl, inr, Bool-cases,
  Option-cases, not, select, arith, find, update_many, ◌==◌, eq_refl,
}
use casecellshop.Action.{Result, ok, Action, ◌>>=◌, ◌>>◌, Result-cases}
use casecellshop.Action.Laws.{bind-eq-ok}
use casecellshop.Store.{Db, Inventory}
use casecellshop.Erp.Service.{ErpCatalogProduct, ErpCatalogCompatibility}
use casecellshop.Reconciliation.Catalog.{
  upsert, find_inventory, reserved_now, synced_inventory, created_inventory, upsert_product,
  upsert_price, upsert_inventory, upsert_stats, sync_compatibilities, sync_product,
  upsert_device_model, upsert_device_models, device_model_ids, create_compatibilities,
}

-- The run leaves the stock alone, whatever it answers.
abbrev SparesStock : {A : Type 0} → Action Db A → Type 0
SparesStock m = (db : Db) → (m db).1.inventory ≡ db.inventory

bind-SparesStock :
    {A B : Type 0} (m : Action Db A) (k : A → Action Db B)
    → SparesStock m
    → ((x : A) → SparesStock (k x))
    → SparesStock (m >>= k)
bind-SparesStock m k a b db = elim (Result-cases (m db).0) [
  | inl (x, e) ↦ rw (e, ◌>>=◌) (a db)
  | inr (x, e) ↦ rw (e, ◌>>=◌) (b x (m db).1 ∙ a db)
]

upsert_product-SparesStock : (e : ErpCatalogProduct) → SparesStock (upsert_product e)
unfolding upsert_product
upsert_product-SparesStock e db = ground arith

upsert_device_model-SparesStock :
    (cuid : ℕ → String) (c : ErpCatalogCompatibility) → SparesStock (upsert_device_model cuid c)
unfolding upsert_device_model
upsert_device_model-SparesStock cuid c db = ground arith

upsert_device_models-SparesStock :
    (cuid : ℕ → String) (cs : List ErpCatalogCompatibility)
    → SparesStock (upsert_device_models cuid cs)
unfolding upsert_device_models
upsert_device_models-SparesStock cuid [] db = refl
upsert_device_models-SparesStock cuid (c ∷ cs) db =
    bind-SparesStock (upsert_device_model cuid c) (λ u. upsert_device_models cuid cs)
      (upsert_device_model-SparesStock cuid c) (λ u. upsert_device_models-SparesStock cuid cs) db

device_model_ids-SparesStock :
    (cs : List ErpCatalogCompatibility) → SparesStock (device_model_ids cs)
unfolding device_model_ids
device_model_ids-SparesStock [] db = refl
device_model_ids-SparesStock (c ∷ cs) db = ground (arith, device_model_ids-SparesStock cs db)

create_compatibilities-SparesStock :
    (id : String) (models : List String) → SparesStock (create_compatibilities id models)
unfolding create_compatibilities
create_compatibilities-SparesStock id models db = ground arith

sync_compatibilities-SparesStock :
    (cuid : ℕ → String) (e : ErpCatalogProduct) → SparesStock (sync_compatibilities cuid e)
unfolding sync_compatibilities
sync_compatibilities-SparesStock cuid e db =
    bind-SparesStock (upsert_device_models cuid e.compatibilities)
      (λ u. device_model_ids e.compatibilities >>= create_compatibilities e.id)
      (upsert_device_models-SparesStock cuid e.compatibilities)
      (λ u.
        bind-SparesStock (device_model_ids e.compatibilities) (create_compatibilities e.id)
          (device_model_ids-SparesStock e.compatibilities)
          (create_compatibilities-SparesStock e.id))
      (record db {
        compatibilities = select (λ row. not (row.product_id == e.id)) db.compatibilities;
      })

module _ (id : String) where
  abbrev of_product : Inventory → Bool
  of_product row = row.product_id == id

  find-update_many :
      (change : Inventory → Inventory) (rows : List Inventory) (row : Inventory)
      → ((r : Inventory) → (change r).product_id ≡ r.product_id)
      → find of_product rows ≡ some row
      → find of_product (update_many of_product change rows) ≡ some (change row)
  find-update_many change [] row h e = cc
  find-update_many change (r ∷ rows) row h e = elim (Bool-cases (r.product_id == id)) [
    | inl same ↦
        let first : r ≡ row = cc (rw same at e) in
        let still : ((change r).product_id == id) ≡ true = rw (h r) same in
        rw (same, still) (ap (λ x. some (change x)) first)
    | inr other ↦ rw (other, other) (find-update_many change rows row h (rw other at e))
  ]

  find-append :
      (rows : List Inventory) (row : Inventory)
      → row.product_id ≡ id
      → find of_product rows ≡ none
      → find of_product (rows ++ row ∷ []) ≡ some row
  find-append [] row is e = rw (is, eq_refl id) refl
  find-append (r ∷ rows) row is e = elim (Bool-cases (r.product_id == id)) [
    | inl same ↦ cc (rw same at e)
    | inr other ↦ rw other (find-append rows row is (rw other at e))
  ]

abbrev upserted : ErpCatalogProduct → Db → List Inventory
upserted e db =
    upsert (of_product e.id) (synced_inventory e (reserved_now (find_inventory e.id db)))
      (created_inventory e) db.inventory

-- The steps after the product's own row.
abbrev stock_steps : (ℕ → String) → ErpCatalogProduct → ℕ → Action Db (Unit {0})
stock_steps cuid e reserved = do
  upsert_price e
  upsert_inventory e reserved
  upsert_stats e
  sync_compatibilities cuid e

stock_steps_lem :
    (cuid : ℕ → String) (e : ErpCatalogProduct) (reserved : ℕ) (db : Db)
    → (stock_steps cuid e reserved db).1.inventory
      ≡ upsert (of_product e.id) (synced_inventory e reserved) (created_inventory e) db.inventory
unfolding upsert_price upsert_inventory upsert_stats
stock_steps_lem cuid e reserved db = sync_compatibilities-SparesStock cuid e _

sync_product_lem :
    (cuid : ℕ → String) (e : ErpCatalogProduct) (db : Db)
    → (sync_product cuid e db).0 ≡ ok tt
    → (sync_product cuid e db).1.inventory ≡ upserted e db
unfolding sync_product
sync_product_lem cuid e db h =
    let reserved = reserved_now (find_inventory e.id db) in
    let (u, done, rest) = bind-eq-ok (upsert_product e) (λ u. stock_steps cuid e reserved) db h in
    ap (λ (x : Result (Unit {0}) × Db). x.1.inventory) rest
    ∙ stock_steps_lem cuid e reserved (upsert_product e db).1
    ∙ ap (upsert (of_product e.id) (synced_inventory e reserved) (created_inventory e))
        (upsert_product-SparesStock e db)

upserted-reserved :
    (e : ErpCatalogProduct) (db : Db)
    → (row : Inventory) × (find (of_product e.id) (upserted e db) ≡ some row)
      × (row.erp_qty ≡ e.erp_qty)
      × (row.reserved_qty ≡ reserved_now (find_inventory e.id db))
      × (row.available_qty ≡ e.erp_qty - reserved_now (find_inventory e.id db))
upserted-reserved e db = elim (Option-cases (find_inventory e.id db)) [
  | inl missing ↦ (
    created_inventory e,
    rw missing (find-append e.id db.inventory (created_inventory e) refl missing),
    refl,
    rw missing refl,
    rw missing (omega arith),
  )
  | inr (row, has) ↦ (
    synced_inventory e row.reserved_qty row,
    rw has (
        find-update_many e.id (synced_inventory e row.reserved_qty) db.inventory row (λ r. refl)
          has),
    refl,
    rw has refl,
    rw has refl,
  )
]

-- When the transaction of one product, with no other at the same time, succeeds, the product's first row of stock has the quantity of
-- the ERP, the reservations it had before (none where it had no row), and as available what is left of
-- the quantity, 0 where more is reserved.
pub sync_product-keeps_reservations :
    (cuid : ℕ → String) (e : ErpCatalogProduct) (db : Db)
    → (sync_product cuid e db).0 ≡ ok tt
    → (row : Inventory) × (find_inventory e.id (sync_product cuid e db).1 ≡ some row)
      × (row.erp_qty ≡ e.erp_qty)
      × (row.reserved_qty ≡ reserved_now (find_inventory e.id db))
      × (row.available_qty ≡ e.erp_qty - reserved_now (find_inventory e.id db))
sync_product-keeps_reservations cuid e db h =
    rw (sync_product_lem cuid e db h) (upserted-reserved e db)
