-- ===== src/Checkout/Steps.antt =====
-- The callback of the transaction of `checkout`, step by step.
pub mod Stock
pub mod Callback
pub mod Accepted
pub mod Prices
mod Decisions
pub use Decisions.{
  Decision, is_entry, find_entry, decide_status, decide, note_order, find_products, priced,
  find_price, no_price, push_priced, has_stock, take_stock, replay, refuse, proceed,
}
unfoldable pub use Decisions.{
  acquire_advisory_lock, acquire_idempotency_lock, acquire_inventory_locks, replay_response,
  reject_out_of_stock, price_item, price_items, reserve_item, reserve_items,
}
use Prim.Native.Nat.{ℕ, ◌+◌, ◌-◌, ◌*◌}
use casecellshop.Base.{
  String, Bool, ◌&&◌, Option, none, some, List, [], ◌∷◌, ◌++◌, foldl, if◌then◌else◌, contains,
  concat, leb, eqb, length, select, find, update_many, count, ◌==◌, is_some,
}
use casecellshop.Action.{
  Error, conflict, unprocessable, prisma, Result, ok, err, Action, pure, throw, throw_if, gets,
  modify, ◌>>=◌, ◌>>◌,
}
use casecellshop.Store.{
  Db, Product, ProductPrice, Inventory, Order, OrderItem, IdempotencyKey, OutboxEvent,
  AcceptedResponse, pending_erp, IdempotencyStatus, processing, completed, OutboxStatus,
}
use casecellshop.Observability.Metrics.{
  record_checkout_accepted, record_checkout_rejected_out_of_stock, record_idempotency_duplicate,
}
use casecellshop.Observability.Context.{Context, set_order_id}
use casecellshop.World.{World, modify_db, modify_metrics}
use casecellshop.Checkout.Request.{
  Platform, CheckoutItem, CheckoutResult, inventory_lock_keys, product_ids,
}

-- `reduce((sum, item) => sum + item.quantity * item.unitPriceCents, 0)`
unfoldable pub total_cents : List OrderItem → ℕ
total_cents items = foldl (λ sum item. sum + item.quantity * item.unit_price_cents) 0 items

abbrev pub new_order : Platform → String → String → List OrderItem → Db → Order
new_order p customer key items db = record {
  id = p.cuid db.next_id;
  customer_id = customer;
  idempotency_key = key;
  status = pending_erp;
  total_cents = total_cents items;
  currency = "BRL";
  erp_invoice_id = none;
  failure_reason = none;
  items = items;
}

abbrev pub is_order_of : String → String → Order → Bool
is_order_of customer key order = order.customer_id == customer && order.idempotency_key == key

-- `order.create`: P2002 where (customerId, idempotencyKey) is taken.
unfoldable pub create_order : Platform → String → String → List OrderItem → Action World Order
unfolding total_cents
create_order p customer key items = do
  taken ← gets (λ w. is_some (find (is_order_of customer key) w.db.orders))
  throw_if taken (prisma "P2002")
  order ← gets (λ w. new_order p customer key items w.db)
  modify
      (modify_db (λ db. record db { orders = db.orders ++ order ∷ []; next_id = db.next_id + 1 }))
  pure order

abbrev pub response_of : Order → AcceptedResponse
response_of order = record {
  order_id = order.id;
  status = order.status;
  total_cents = order.total_cents;
  currency = order.currency;
}

abbrev from_context : (Context → String) → Option Context → Option String
from_context f none = none
from_context f (some c) = some (f c)

abbrev pub accepted_event : Platform → Order → World → OutboxEvent
accepted_event p order w = record {
  id = p.cuid w.db.next_id;
  aggregate_type = "Order";
  aggregate_id = order.id;
  event_type = "OrderAccepted";
  payload = record {
    order_id = some order.id;
    customer_id = some order.customer_id;
    idempotency_key = some order.idempotency_key;
    total_cents = order.total_cents;
    currency = order.currency;
    correlation_id = from_context (λ c. c.correlation_id) w.context;
    request_id = from_context (λ c. c.request_id) w.context;
    trace_id = from_context (λ c. c.trace_id) w.context;
  };
  status = OutboxStatus.pending;
  attempts = 0;
  last_error = none;
  order_id = some order.id;
}

unfoldable pub create_event : Platform → Order → Action World (Unit {0})
create_event p order = do
  event ← gets (accepted_event p order)
  modify (
      modify_db (λ db. record db {
        outbox_events = db.outbox_events ++ event ∷ [];
        next_id = db.next_id + 1;
      }))

abbrev pub completed_entry : String → Order → IdempotencyKey
completed_entry hash order = record {
  customer_id = order.customer_id;
  key = order.idempotency_key;
  request_hash = hash;
  status = completed;
  response_body = some (response_of order);
  order_id = some order.id;
}

-- `idempotencyKey.create`: P2002 where (customerId, key) is taken.
unfoldable pub create_entry : String → Order → Action World (Unit {0})
create_entry hash order = do
  taken ← gets (λ w. is_some (find_entry order.customer_id order.idempotency_key w.db))
  throw_if taken (prisma "P2002")
  modify (
      modify_db (λ db. record db {
        idempotency_keys = db.idempotency_keys ++ completed_entry hash order ∷ [];
      }))

lift_result : {A : Type 0} → Result A → Action World A
lift_result r w = (r, w)

-- The rows that an accepted order leaves, once its stock is reserved.
unfoldable pub record_order :
    Platform → String → String → String → List OrderItem → Action World CheckoutResult
record_order p customer key hash order_items = do
  order ← create_order p customer key order_items
  modify (λ w. record w { context = set_order_id order.id w.context })
  create_event p order
  create_entry hash order
  modify (λ w. record w { outcome = "accepted" })
  modify (modify_metrics record_checkout_accepted)
  pure (record { http_status = 202; body = response_of order })

-- The callback from the query for products on, where the key is new.
unfoldable pub place_order :
    Platform → String → String → String → List CheckoutItem → Action World CheckoutResult
unfolding reject_out_of_stock lift_result
place_order p customer key hash items = do
  products ← gets (λ w. find_products items w.db)
  if eqb (length products) (length items)
      then pure tt
      else reject_out_of_stock "One or more products are unavailable"
  db ← gets (λ w. w.db)
  order_items ← lift_result (price_items products db items)
  reserve_items items
  record_order p customer key hash order_items

abbrev pub resolve : Decision → Action World CheckoutResult → Action World CheckoutResult
unfolding replay_response
resolve (replay body order) fresh = replay_response body order
resolve (refuse e) fresh = throw e
resolve proceed fresh = fresh

-- The whole callback of `$transaction`.
unfoldable pub checkout_callback :
    Platform → String → String → String → List CheckoutItem → Action World CheckoutResult
unfolding replay_response
checkout_callback p customer key hash items = do
  acquire_idempotency_lock (concat (customer ∷ ":" ∷ key ∷ []))
  acquire_inventory_locks (inventory_lock_keys p items)
  existing ← gets (λ w. find_entry customer key w.db)
  resolve (decide hash existing) (place_order p customer key hash items)
