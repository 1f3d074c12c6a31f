-- ===== src/Api/Controllers.antt =====
-- The controllers of apps/api/src: products, checkout and orders. A handler answers with the status of its
-- response, 200 unless the source sets another, and its body.
use casecellshop.Base.{
  ℕ, String, Option, none, some, List, concat, [], ◌∷◌, find, select, is_falsy, ◌==◌, Bool, false,
  if◌then◌else◌,
}
use casecellshop.Action.{not_found, Action, pure, throw, throw_if, gets, ◌>>=◌, ◌>>◌}
use casecellshop.Store.{
  Db, Order, OutboxEvent, IntegrationAttempt, IdempotencyKey, AcceptedResponse,
}
use casecellshop.World.{World}
use casecellshop.Cache.Entry.{ProductListItem}
use casecellshop.Products.Browsing.{Browsing}
use casecellshop.Products.Query.{QueryNumber, missing}
use casecellshop.Products.Listing.{ProductPage, list_products, get_product_by_id}
use casecellshop.Checkout.Request.{Platform, CheckoutRequest, text_of}
use casecellshop.Checkout.Service.{checkout}
use casecellshop.Checkout.Steps.{find_entry}

-- `value ? Number(value) : undefined`
abbrev number_of : (String → QueryNumber) → Option String → QueryNumber
number_of number none = missing
number_of number (some text) = if text == "" then missing else number text

module _ (b : Browsing) (tracer : Option (ℕ → String)) where
  -- `GET /products`, where `number` is JavaScript's `Number`.
  unfoldable pub list_products_handler :
      (String → QueryNumber)
      → Option String
      → Option String
      → Option String
      → Option String
      → Option String
      → Action World (ℕ × ProductPage)
  list_products_handler number brand device sort page page_size = do
    answer ← list_products b tracer (record {
      brand = brand;
      device = device;
      sort = sort;
      page = number_of number page;
      page_size = number_of number page_size;
    })
    pure (200, answer)

  abbrev answer_product : String → Option ProductListItem → Action World (ℕ × ProductListItem)
  answer_product id none = throw (not_found (concat ("Product " ∷ id ∷ " not found" ∷ [])))
  answer_product id (some item) = pure (200, item)

  -- `GET /products/:id`
  unfoldable pub get_product_handler : String → Action World (ℕ × ProductListItem)
  get_product_handler id = do product ← get_product_by_id b tracer id; answer_product id product

-- `POST /checkout`
unfoldable pub checkout_handler :
    Platform
    → Option (ℕ → String)
    → Option String
    → Option String
    → CheckoutRequest
    → Action World (ℕ × AcceptedResponse)
checkout_handler p tracer customer key body = do
  result ← checkout p tracer customer key body
  pure (result.http_status, result.body)

-- An order with its events and its attempts; its items are in the row.
pub record OrderDetails : Type 0 where
  pub order : Order
  pub outbox_events : List OutboxEvent
  pub attempts : List IntegrationAttempt

abbrev pub is_about : String → Option String → Bool
is_about id none = false
is_about id (some order) = order == id

abbrev pub details : Db → Order → OrderDetails
details db order = record {
  order = order;
  outbox_events = select (λ (row : OutboxEvent). is_about order.id row.order_id) db.outbox_events;
  attempts = select (λ (row : IntegrationAttempt). row.order_id == order.id) db.attempts;
}

abbrev answer_order : String → Option Order → Action World (ℕ × OrderDetails)
answer_order id none = throw (not_found (concat ("Order " ∷ id ∷ " not found" ∷ [])))
answer_order id (some order) = gets (λ w. (200, details w.db order))

-- `GET /orders/:id`
unfoldable pub get_by_id : String → Action World (ℕ × OrderDetails)
get_by_id id = do
  order ← gets (λ w. find (λ (row : Order). row.id == id) w.db.orders)
  answer_order id order

abbrev answer_entry : String → Option IdempotencyKey → Action World (ℕ × IdempotencyKey)
answer_entry key none = throw (not_found (concat ("Idempotency key " ∷ key ∷ " not found" ∷ [])))
answer_entry key (some entry) = pure (200, entry)

-- `GET /orders/by-idempotency-key/:key`
unfoldable pub get_by_idempotency_key : Option String → String → Action World (ℕ × IdempotencyKey)
get_by_idempotency_key customer key = do
  throw_if (is_falsy customer) (not_found "Missing customer scope")
  entry ← gets (λ w. find_entry (text_of customer) key w.db)
  answer_entry key entry
