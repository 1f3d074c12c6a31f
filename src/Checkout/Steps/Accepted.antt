-- ===== src/Checkout/Steps/Accepted.antt =====
-- What a new order leaves in the database, and when the callback succeeds.
use Prim.Native.Nat.{◌+◌}
use casecellshop.Base.{
  String, true, false, ◌≡◌, refl, inl, inr, none, some, List, [], ◌∷◌, ◌++◌, arith, find,
  Bool-cases, eqb, eqb→eq, length,
}
use casecellshop.Action.{Error, unprocessable, ok, err, Result-cases, ◌>>◌}
use casecellshop.Action.Laws.{bind-eq-ok}
use casecellshop.Store.{Db, Order, OrderItem, OutboxEvent, OutboxStatus}
use casecellshop.Observability.Context.{set_order_id}
use casecellshop.Observability.Metrics.{record_checkout_rejected_out_of_stock}
use casecellshop.World.{World, modify_metrics}
use casecellshop.Checkout.Request.{Platform, CheckoutItem, CheckoutResult}
use casecellshop.Checkout.Steps.{
  find_entry, is_order_of, new_order, accepted_event, completed_entry, response_of, create_order,
  create_event, create_entry, record_order, place_order, find_products, price_items, reserve_items,
}
use casecellshop.Checkout.Steps.Stock.{EachFound, reserved_rows, with_inventory, reserve_items-ok}
use casecellshop.Checkout.Steps.Prices.{AllPriced, price_items-AllPriced}

-- The database after an order has been recorded.
abbrev pub recorded : String → Order → OutboxEvent → Db → Db
recorded hash order event db = record db {
  orders = db.orders ++ order ∷ [];
  outbox_events = db.outbox_events ++ event ∷ [];
  idempotency_keys = db.idempotency_keys ++ completed_entry hash order ∷ [];
  next_id = db.next_id + 1 + 1;
}

abbrev pub IsEventOf : Order → OutboxEvent → Type 0
IsEventOf order event =
    (event.status ≡ OutboxStatus.pending)
    × (event.aggregate_id ≡ order.id)
    × (event.order_id ≡ some order.id)
    × (event.payload.order_id ≡ some order.id)
    × (event.payload.customer_id ≡ some order.customer_id)
    × (event.payload.idempotency_key ≡ some order.idempotency_key)
    × (event.payload.total_cents ≡ order.total_cents)

pub record Records (p : Platform) (customer key hash : String) (rows : List OrderItem) (db db' : Db)
    (r : CheckoutResult) : Type 0 where
  pub event : OutboxEvent
  pub is_event : IsEventOf (new_order p customer key rows db) event
  pub is_result :
      r ≡ record { http_status = 202; body = response_of (new_order p customer key rows db) }
  pub is_after : db' ≡ recorded hash (new_order p customer key rows db) event db
  pub no_order : find (is_order_of customer key) db.orders ≡ none
  pub no_entry : find_entry customer key db ≡ none

-- The world in which the event's row is built.
abbrev with_order : Order → World → World
with_order order w = record w {
  db = record w.db { orders = w.db.orders ++ order ∷ []; next_id = w.db.next_id + 1 };
  context = set_order_id order.id w.context;
}

record_order-Records :
    (p : Platform) (customer key hash : String) (rows : List OrderItem) (w : World)
    {r : CheckoutResult}
    → (record_order p customer key hash rows w).0 ≡ ok r
    → Records p customer key hash rows w.db (record_order p customer key hash rows w).1.db r
unfolding record_order create_order create_event create_entry
record_order-Records p customer key hash rows w e =
    let order : Order = new_order p customer key rows w.db in
    record {
      event = accepted_event p order (with_order order w);
      is_event = (refl, refl, refl, refl, refl, refl, refl);
      is_result = ground arith;
      is_after = ground arith;
      no_order = ground arith;
      no_entry = ground arith;
    }

-- What a first checkout of a key has done when it succeeds: each item is priced by the tables and
-- has taken its stock from one row, and the order is recorded.
pub record Accepts (p : Platform) (customer key hash : String) (items : List CheckoutItem)
    (db db' : Db) (r : CheckoutResult) : Type 0 where
  pub rows : List OrderItem
  pub is_priced : AllPriced db items rows
  pub is_found : EachFound items db.inventory
  pub are_available : length (find_products items db) ≡ length items
  pub records :
      Records p customer key hash rows
        (record db { inventory = reserved_rows items db.inventory })
        db'
        r

-- The callback on a new key, by its three ways: some item is not an active product, some item has
-- no price, or the stock is reserved and the order recorded.
module _ (p : Platform) (customer key hash : String) (items : List CheckoutItem) (w : World) where
  pub place_order_short :
      eqb (length (find_products items w.db)) (length items) ≡ false
      → place_order p customer key hash items w ≡ (
        err (unprocessable "One or more products are unavailable"),
        modify_metrics record_checkout_rejected_out_of_stock w,
      )
  unfolding place_order
  place_order_short short = rw (short, place_order)

  pub place_order_unpriced :
      (x : Error)
      → eqb (length (find_products items w.db)) (length items) ≡ true
      → price_items (find_products items w.db) w.db items ≡ err x
      → place_order p customer key hash items w ≡ (err x, w)
  unfolding place_order
  place_order_unpriced x full bad = rw (full, bad, place_order)

  pub place_order_priced :
      (rows : List OrderItem)
      → eqb (length (find_products items w.db)) (length items) ≡ true
      → price_items (find_products items w.db) w.db items ≡ ok rows
      → place_order p customer key hash items w
        ≡ (reserve_items items >> record_order p customer key hash rows) w
  unfolding place_order
  place_order_priced rows full prices = rw (full, prices, place_order)

  reserved_order-Accepts :
      (rows : List OrderItem) {r : CheckoutResult}
      → length (find_products items w.db) ≡ length items
      → AllPriced w.db items rows
      → ((reserve_items items >> record_order p customer key hash rows) w).0 ≡ ok r
      → Accepts p customer key hash items w.db
          ((reserve_items items >> record_order p customer key hash rows) w).1.db
          r
  reserved_order-Accepts rows {r} full prices e =
      let (u, stock, same) =
        bind-eq-ok (reserve_items items) (λ _. record_order p customer key hash rows) w e in
      let (found, after) = reserve_items-ok items w stock in
      let w' = with_inventory (reserved_rows items w.db.inventory) w in
      rw same (record {
        rows = rows;
        is_priced = prices;
        is_found = found;
        are_available = full;
        records =
            rw after
              (record_order-Records p customer key hash rows w' (rw after at (rw same at e)));
      })

  pub place_order-Accepts :
      {r : CheckoutResult}
      → (place_order p customer key hash items w).0 ≡ ok r
      → Accepts p customer key hash items w.db (place_order p customer key hash items w).1.db r
  place_order-Accepts e =
      elim (Bool-cases (eqb (length (find_products items w.db)) (length items))) [
        | inr short ↦ cc (rw (place_order_short short) at e)
        | inl full ↦ elim (Result-cases (price_items (find_products items w.db) w.db items)) [
          | inl (x, bad) ↦ cc (rw (place_order_unpriced x full bad) at e)
          | inr (rows, prices) ↦
              let same = place_order_priced rows full prices in
              rw same (
                reserved_order-Accepts rows (eqb→eq _ _ full)
                  (price_items-AllPriced items w.db items rows prices) (rw same at e))
        ]
      ]
