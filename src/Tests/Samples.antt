-- ===== src/Tests/Samples.antt =====
-- A small shop for the tests.
use Prim.Native.Nat.{ℕ}
use casecellshop.Base.{
  false, Bool, not, String, true, none, some, Option, [], ◌∷◌, map, concat, ◌==◌, ◌||◌, eqb,
  if◌then◌else◌,
}
use casecellshop.Store.{
  Db, Product, ProductPrice, Inventory, Order, OrderStatus, IdempotencyKey, IdempotencyStatus,
  AcceptedResponse, OutboxEvent, OutboxStatus,
}
use casecellshop.World.{World}
use casecellshop.Observability.Metrics.{no_metrics}
use casecellshop.Checkout.Request.{Platform, CheckoutRequest, CheckoutItem, pos}
use casecellshop.Erp.Service.{Erp, ErpCatalogProduct, BillingReceipt}
use casecellshop.Queue.Broker.{BillingMessage, Message}
use casecellshop.Plant.{Plant}

abbrev number : ℕ → String
number n = if eqb n 0 then "0" else (if eqb n 1 then "1" else "2")

-- Puts the product `case-a` before the others.
abbrev pub case_a_first : String → String → Bool
case_a_first a b = a == "case-a" || not (b == "case-a")

abbrev pub platform : Platform
platform = record {
  cuid = λ n. concat ("c" ∷ number n ∷ []);
  uuid = λ n. concat ("u" ∷ number n ∷ []);
  request_hash = λ items. concat (map (λ (i : CheckoutItem). i.product_id) items);
  locale_le = λ a b. a == b || a == "case-a";
  code_unit_le = case_a_first;
  version_fails = false;
}

abbrev pub a_product : String → Product
a_product id = record {
  id = id;
  sku = concat ("sku-" ∷ id ∷ []);
  name = id;
  description = none;
  image_url = none;
  brand = none;
  active = true;
}

abbrev pub stock : String → ℕ → Inventory
stock id n = record {
  product_id = id;
  erp_qty = n;
  reserved_qty = 0;
  available_qty = n;
  version = 1;
}

abbrev price : String → ℕ → ProductPrice
price id cents = record { product_id = id; price_cents = cents; currency = "BRL" }

abbrev pub shop : Db
shop = record {
  products = a_product "case-a" ∷ a_product "case-b" ∷ [];
  prices = price "case-a" 1000 ∷ price "case-b" 250 ∷ [];
  inventory = stock "case-a" 5 ∷ stock "case-b" 1 ∷ [];
  stats = [];
  device_models = [];
  compatibilities = [];
  orders = [];
  idempotency_keys = [];
  outbox_events = [];
  attempts = [];
  catalog_version = none;
  next_id = 0;
}

abbrev pub world : Db → World
world db = record {
  db = db;
  metrics = no_metrics;
  context = none;
  conflicts = [];
  locks = [];
  delays = [];
  outcome = "error";
  redis = record { entries = []; faults = [] };
  uuids = 0;
  spans = [];
}

abbrev pub body : CheckoutRequest
body = record {
  items = some (
      record { product_id = some "case-b"; quantity = pos 1 }
      ∷ record { product_id = some "case-a"; quantity = pos 2 }
      ∷ []);
}

abbrev pub answer : AcceptedResponse
answer = record {
  order_id = "c0";
  status = OrderStatus.pending_erp;
  total_cents = 2250;
  currency = "BRL";
}

abbrev pub entry : String → IdempotencyKey
entry hash = record {
  customer_id = "ana";
  key = "k1";
  request_hash = hash;
  status = IdempotencyStatus.completed;
  response_body = some answer;
  order_id = some "c0";
}

-- A shop that has seen the key with the request of the given hash.
abbrev pub shop_with : String → Db
shop_with hash = record shop { idempotency_keys = entry hash ∷ [] }

abbrev pub order : String → OrderStatus → Option String → Order
order id status invoice = record {
  id = id;
  customer_id = "ana";
  idempotency_key = "k1";
  status = status;
  total_cents = 2250;
  currency = "BRL";
  erp_invoice_id = invoice;
  failure_reason = none;
  items = [];
}

abbrev pub receipt : BillingReceipt
receipt = record { invoice_id = "inv-c9"; billed_at = 0 }

-- The ERP has billed the order `c9`.
abbrev pub erp : Erp
erp = record {
  catalog = [];
  fail_billing_for = [];
  billing_by_key = ("order:c9:billing", receipt) ∷ [];
  billing_by_order_id = ("c9", receipt) ∷ [];
  clock = 7;
}

abbrev pub no_erp : Erp
no_erp = record {
  catalog = [];
  fail_billing_for = [];
  billing_by_key = [];
  billing_by_order_id = [];
  clock = 7;
}

abbrev pub first_message : BillingMessage
first_message = record {
  order_id = "c0";
  customer_id = "ana";
  idempotency_key = "k1";
  attempt = none;
  correlation_id = none;
  request_id = none;
  trace_id = none;
}

abbrev pub message : Message
message = record {
  message_id = some "c1";
  headers = record {
    order_id = "c0";
    customer_id = "ana";
    idempotency_key = "k1";
    correlation_id = "";
    request_id = "";
    trace_id = "";
  };
  content = some first_message;
}

-- The order `c0` waits for its billing, and its message is queued.
abbrev pub plant : Plant
plant = record {
  db = record shop { orders = order "c0" OrderStatus.pending_erp none ∷ [] };
  broker = record {
    bound = true;
    billing = message ∷ [];
    retry = [];
    dlq = [];
    faults = [];
    losses = [];
  };
  erp = no_erp;
  metrics = no_metrics;
  db_faults = [];
  network = [];
}

abbrev pub erp_product : ErpCatalogProduct
erp_product = record {
  id = "case-a";
  sku = "sku-case-a";
  name = "case-a";
  description = "";
  image_url = "";
  brand = "";
  active = true;
  price_cents = 1000;
  erp_qty = 9;
  compatibilities = [];
}

abbrev pub a_pending_event : OutboxEvent
a_pending_event = record {
  id = "c1";
  aggregate_type = "Order";
  aggregate_id = "c0";
  event_type = "OrderAccepted";
  payload = record {
    order_id = some "c0";
    customer_id = some "ana";
    idempotency_key = some "k1";
    total_cents = 2250;
    currency = "BRL";
    correlation_id = none;
    request_id = none;
    trace_id = none;
  };
  status = OutboxStatus.pending;
  attempts = 0;
  last_error = none;
  order_id = some "c0";
}

abbrev pub billing_message : BillingMessage
billing_message = record {
  order_id = "c0";
  customer_id = "ana";
  idempotency_key = "k1";
  attempt = some 2;
  correlation_id = none;
  request_id = none;
  trace_id = none;
}
