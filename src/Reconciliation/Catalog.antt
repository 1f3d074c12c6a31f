-- ===== src/Reconciliation/Catalog.antt =====
-- `syncCatalog` of apps/reconciliation-worker/src/reconciliation.runner.ts.
pub mod Stock
use Prim.Native.Nat.{ℕ, ◌+◌, ◌-◌}
use casecellshop.Base.{
  String, Bool, true, false, ◌&&◌, not, Option, none, some, List, [], ◌∷◌, ◌++◌, map, select, find,
  update_many, is_some, contains, length, if◌then◌else◌, ◌==◌,
}
use casecellshop.Action.{prisma, ok, err, Action, pure, throw_if, gets, modify, ◌>>=◌, ◌>>◌}
use casecellshop.Store.{Db, Product, Inventory, DeviceModel}
use casecellshop.Erp.Service.{ErpCatalogProduct, ErpCatalogCompatibility}
use casecellshop.Erp.Clients.{request_products}
use casecellshop.Plant.{Plant, statement}

-- `upsert` in a table with a key: the row of the key is changed, or a new one is added.
abbrev pub upsert : {A : Type 0} → (A → Bool) → (A → A) → A → List A → List A
upsert test change new rows =
    if is_some (find test rows) then update_many test change rows else rows ++ new ∷ []

abbrev pub updated_product : ErpCatalogProduct → Product → Product
updated_product e p = record p {
  sku = e.sku;
  name = e.name;
  description = some e.description;
  image_url = some e.image_url;
  brand = some e.brand;
  active = e.active;
}

abbrev pub created_product : ErpCatalogProduct → Product
created_product e = record {
  id = e.id;
  sku = e.sku;
  name = e.name;
  description = some e.description;
  image_url = some e.image_url;
  brand = some e.brand;
  active = e.active;
}

abbrev sku_taken : ErpCatalogProduct → Product → Bool
sku_taken e p = p.sku == e.sku && not (p.id == e.id)

-- `product.upsert`: P2002 where another product has the sku.
unfoldable pub upsert_product : ErpCatalogProduct → Action Db (Unit {0})
upsert_product e = do
  taken ← gets (λ db. is_some (find (sku_taken e) db.products))
  throw_if taken (prisma "P2002")
  modify (λ db. record db {
    products = upsert (λ p. p.id == e.id) (updated_product e) (created_product e) db.products;
  })

unfoldable pub upsert_price : ErpCatalogProduct → Action Db (Unit {0})
upsert_price e = modify (λ db. record db {
  prices =
      upsert (λ row. row.product_id == e.id)
        (λ row. record row { price_cents = e.price_cents; currency = "BRL" })
        (record { product_id = e.id; price_cents = e.price_cents; currency = "BRL" }) db.prices;
})

abbrev pub find_inventory : String → Db → Option Inventory
find_inventory id db = find (λ row. row.product_id == id) db.inventory

-- `currentInventory?.reservedQty ?? 0`
abbrev pub reserved_now : Option Inventory → ℕ
reserved_now none = 0
reserved_now (some row) = row.reserved_qty

-- `Math.max(erpQty - reservedQty, 0)` is the subtraction of ℕ.
abbrev pub synced_inventory : ErpCatalogProduct → ℕ → Inventory → Inventory
synced_inventory e reserved row = record row {
  erp_qty = e.erp_qty;
  available_qty = e.erp_qty - reserved;
  version = row.version + 1;
}

abbrev pub created_inventory : ErpCatalogProduct → Inventory
created_inventory e = record {
  product_id = e.id;
  erp_qty = e.erp_qty;
  reserved_qty = 0;
  available_qty = e.erp_qty;
  version = 1;
}

unfoldable pub upsert_inventory : ErpCatalogProduct → ℕ → Action Db (Unit {0})
upsert_inventory e reserved = modify (λ db. record db {
  inventory =
      upsert (λ row. row.product_id == e.id) (synced_inventory e reserved) (created_inventory e)
        db.inventory;
})

unfoldable pub upsert_stats : ErpCatalogProduct → Action Db (Unit {0})
upsert_stats e = modify (λ db. record db {
  stats =
      upsert (λ row. row.product_id == e.id) (λ row. row)
        (record { product_id = e.id; popularity_score = 0; view_count = 0; sold_count = 0 })
        db.stats;
})

abbrev model_taken : ErpCatalogCompatibility → DeviceModel → Bool
model_taken c d = (d.brand == c.brand && d.model == c.model) && not (d.slug == c.slug)

-- `deviceModel.upsert`: P2002 where another slug has the brand and model.
unfoldable pub upsert_device_model : (ℕ → String) → ErpCatalogCompatibility → Action Db (Unit {0})
upsert_device_model cuid c = do
  taken ← gets (λ db. is_some (find (model_taken c) db.device_models))
  throw_if taken (prisma "P2002")
  modify (λ db. record db {
    device_models =
        upsert (λ d. d.slug == c.slug) (λ d. record d { brand = c.brand; model = c.model })
          (record { id = cuid db.next_id; brand = c.brand; model = c.model; slug = c.slug })
          db.device_models;
    next_id = db.next_id + 1;
  })

unfoldable pub upsert_device_models :
    (ℕ → String) → List ErpCatalogCompatibility → Action Db (Unit {0})
unfolding upsert_device_model
upsert_device_models cuid [] = pure tt
upsert_device_models cuid (c ∷ cs) = upsert_device_model cuid c >> upsert_device_models cuid cs

-- `findUniqueOrThrow` for each slug.
unfoldable pub device_model_ids : List ErpCatalogCompatibility → Action Db (List String)
device_model_ids [] = pure []
device_model_ids (c ∷ cs) = do
  found ← gets (λ db. find (λ d. d.slug == c.slug) db.device_models)
  id ← λ db. elim found [ none ↦ (err (prisma "P2025"), db) | some d ↦ (ok d.id, db) ]
  ids ← device_model_ids cs
  pure (id ∷ ids)

abbrev has_repeat : List String → Bool
has_repeat [] = false
has_repeat (id ∷ ids) = if contains id ids then true else has_repeat ids

-- `createMany`: P2002 where a pair is listed twice. The product's own pairs were deleted before.
unfoldable pub create_compatibilities : String → List String → Action Db (Unit {0})
create_compatibilities product models = do
  throw_if (has_repeat models) (prisma "P2002")
  modify (λ db. record db {
    compatibilities =
        db.compatibilities
        ++ map (λ model. record { product_id = product; device_model_id = model }) models;
  })

unfoldable pub sync_compatibilities : (ℕ → String) → ErpCatalogProduct → Action Db (Unit {0})
unfolding upsert_device_models device_model_ids create_compatibilities
sync_compatibilities cuid e = do
  modify (λ db. record db {
    compatibilities = select (λ row. not (row.product_id == e.id)) db.compatibilities;
  })
  upsert_device_models cuid e.compatibilities
  ids ← device_model_ids e.compatibilities
  create_compatibilities e.id ids

-- The callback of one product's transaction.
unfoldable pub sync_product : (ℕ → String) → ErpCatalogProduct → Action Db (Unit {0})
unfolding upsert_product upsert_price upsert_inventory upsert_stats
sync_product cuid e = do
  current ← gets (find_inventory e.id)
  upsert_product e
  upsert_price e
  upsert_inventory e (reserved_now current)
  upsert_stats e
  sync_compatibilities cuid e

-- `$transaction` round a callback on the database, without an isolation level, on its own: what a transaction
-- that runs at the same time would do between its statements is left out.
abbrev pub atomic : {A : Type 0} → Action Db A → Action Db A
atomic body db = let (r, db') = body db in elim r [ ok a ↦ (ok a, db') | err e ↦ (err e, db) ]

unfoldable pub sync_products : (ℕ → String) → List ErpCatalogProduct → Action Plant (Unit {0})
sync_products cuid [] = pure tt
sync_products cuid (e ∷ es) = statement (atomic (sync_product cuid e)) >> sync_products cuid es

abbrev pub erp_ids : List ErpCatalogProduct → List String
erp_ids = map (λ e. e.id)

-- `product.updateMany` for the ids that the ERP does not list.
unfoldable pub deactivate_missing : List String → Action Db (Unit {0})
deactivate_missing ids = modify (λ db. record db {
  products =
      update_many (λ p. not (contains p.id ids)) (λ p. record p { active = false }) db.products;
})

abbrev pub bumped_version : Option ℕ → ℕ
bumped_version none = 1
bumped_version (some version) = version + 1

unfoldable pub bump_catalog_version : Action Db ℕ
bump_catalog_version db = (
  ok (bumped_version db.catalog_version),
  record db { catalog_version = some (bumped_version db.catalog_version) },
)

pub record SyncReport : Type 0 where
  pub synced : ℕ
  pub catalog_version : ℕ

unfoldable pub sync_catalog : (ℕ → String) → Action Plant SyncReport
unfolding sync_products deactivate_missing bump_catalog_version
sync_catalog cuid = do
  products ← request_products
  sync_products cuid products
  statement (deactivate_missing (erp_ids products))
  version ← statement bump_catalog_version
  pure (record { synced = length products; catalog_version = version })
