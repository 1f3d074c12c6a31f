-- ===== src/Checkout/Steps/Decisions.antt =====
-- The first steps of the transaction's callback in apps/api/src/checkout/checkout.service.ts: the locks,
-- the stored key, the products with their prices, and the reservation of the stock.
use Prim.Native.Nat.{◌+◌, ◌-◌}
use casecellshop.Base.{
  String, Bool, ◌&&◌, Option, none, some, List, [], ◌∷◌, ◌++◌, if◌then◌else◌, contains, concat, leb,
  eqb, select, find, update_many, count, ◌==◌,
}
use casecellshop.Action.{
  Error, conflict, unprocessable, Result, ok, err, Action, pure, throw, gets, modify, ◌>>=◌, ◌>>◌,
}
use casecellshop.Store.{
  Db, Product, ProductPrice, Inventory, OrderItem, IdempotencyKey, AcceptedResponse,
  IdempotencyStatus, processing, completed,
}
use casecellshop.Observability.Metrics.{
  record_checkout_rejected_out_of_stock, record_idempotency_duplicate,
}
use casecellshop.Observability.Context.{set_order_id}
use casecellshop.World.{World, modify_db, modify_metrics}
use casecellshop.Checkout.Request.{CheckoutItem, CheckoutResult, product_ids}

-- `acquireAdvisoryLock`, where the client has `$executeRaw`. Another transaction's lock makes it
-- wait; here the transactions run one after the other.
unfoldable pub acquire_advisory_lock : String → Action World (Unit {0})
acquire_advisory_lock key = modify (λ w. record w { locks = w.locks ++ key ∷ [] })

unfoldable pub acquire_idempotency_lock : String → Action World (Unit {0})
unfolding acquire_advisory_lock
acquire_idempotency_lock key = acquire_advisory_lock key

unfoldable pub acquire_inventory_locks : List String → Action World (Unit {0})
unfolding acquire_advisory_lock
acquire_inventory_locks [] = pure tt
acquire_inventory_locks (id ∷ ids) =
    acquire_advisory_lock (concat ("inventory:" ∷ id ∷ [])) >> acquire_inventory_locks ids

-- The row of the unique key (customerId, key).
abbrev pub is_entry : String → String → IdempotencyKey → Bool
is_entry customer key row = row.customer_id == customer && row.key == key

abbrev pub find_entry : String → String → Db → Option IdempotencyKey
find_entry customer key db = find (is_entry customer key) db.idempotency_keys

-- What the stored entry of the key means for this request.
pub data Decision : Type 0 where
  replay : AcceptedResponse → Option String → Decision
  refuse : Error → Decision
  proceed : Decision

abbrev pub decide_status : IdempotencyStatus → Option AcceptedResponse → Option String → Decision
decide_status completed (some body) order = replay body order
decide_status processing body order =
    refuse (conflict "Checkout already in progress for this idempotency key")
decide_status _ _ _ = proceed

abbrev pub decide : String → Option IdempotencyKey → Decision
decide hash none = proceed
decide hash (some entry) =
    if entry.request_hash == hash
    then decide_status entry.status entry.response_body entry.order_id
    else refuse (conflict "Idempotency key reused with different payload")

abbrev pub note_order : Option String → World → World
note_order none w = w
note_order (some id) w = if id == "" then w else record w { context = set_order_id id w.context }

unfoldable pub replay_response : AcceptedResponse → Option String → Action World CheckoutResult
replay_response body order = do
  modify (λ w. record w { outcome = "idempotent" })
  modify (modify_metrics record_idempotency_duplicate)
  modify (note_order order)
  pure (record { http_status = 200; body = body })

-- The active products among the requested ids.
abbrev pub find_products : List CheckoutItem → Db → List Product
find_products items db = select (λ p. contains p.id (product_ids items) && p.active) db.products

unfoldable pub reject_out_of_stock : String → Action World (Unit {0})
reject_out_of_stock message = do
  modify (modify_metrics record_checkout_rejected_out_of_stock)
  throw (unprocessable message)

abbrev pub priced : CheckoutItem → Product → ProductPrice → OrderItem
priced item product price = record {
  product_id = product.id;
  sku = product.sku;
  product_name = product.name;
  quantity = item.quantity;
  unit_price_cents = price.price_cents;
}

abbrev pub find_price : String → Db → Option ProductPrice
find_price id db = find (λ row. row.product_id == id) db.prices

abbrev pub no_price : CheckoutItem → Error
no_price item = unprocessable (concat ("Product " ∷ item.product_id ∷ " has no price" ∷ []))

unfoldable pub price_item : List Product → Db → CheckoutItem → Result OrderItem
price_item products db item = elim (find (λ p. p.id == item.product_id) products) [
  | none ↦ err (no_price item)
  | some product ↦ elim (find_price product.id db) [
    | none ↦ err (no_price item)
    | some price ↦ ok (priced item product price)
  ]
]

abbrev pub push_priced : Result OrderItem → Result (List OrderItem) → Result (List OrderItem)
push_priced (err e) rest = err e
push_priced (ok x) (err e) = err e
push_priced (ok x) (ok xs) = ok (x ∷ xs)

-- The `map` over the items, which stops at the first throw.
unfoldable pub price_items : List Product → Db → List CheckoutItem → Result (List OrderItem)
unfolding price_item
price_items products db [] = ok []
price_items products db (item ∷ items) =
    push_priced (price_item products db item) (price_items products db items)

abbrev pub has_stock : CheckoutItem → Inventory → Bool
has_stock item row = row.product_id == item.product_id && leb item.quantity row.available_qty

abbrev pub take_stock : CheckoutItem → Inventory → Inventory
take_stock item row = record row {
  available_qty = row.available_qty - item.quantity;
  reserved_qty = row.reserved_qty + item.quantity;
  version = row.version + 1;
}

-- One round of the loop over the items: a conditional update, which must change one row.
unfoldable pub reserve_item : CheckoutItem → Action World (Unit {0})
unfolding reject_out_of_stock
reserve_item item = do
  updated ← gets (λ w. count (has_stock item) w.db.inventory)
  modify (
      modify_db (λ db. record db {
        inventory = update_many (has_stock item) (take_stock item) db.inventory;
      }))
  if eqb updated 1 then pure tt else reject_out_of_stock "Insufficient stock"

unfoldable pub reserve_items : List CheckoutItem → Action World (Unit {0})
unfolding reserve_item
reserve_items [] = pure tt
reserve_items (item ∷ items) = reserve_item item >> reserve_items items
