-- ===== src/Store.antt =====
-- The database tables of prisma/schema.prisma that the services read and write, as lists of rows,
-- oldest first. Integer columns are ℕ: quantities, prices and counters are never negative, and the
-- 32-bit bound of the columns is not modelled. Time stamps are left out: rows are appended, so a
-- table's order is the order of `createdAt`.
use casecellshop.Base.{ℕ, String, Bool, Option, List}

pub data OrderStatus : Type 0 where
  pending_erp billed erp_failed : OrderStatus

pub data IdempotencyStatus : Type 0 where
  processing completed failed : IdempotencyStatus

pub data OutboxStatus : Type 0 where
  pending published failed : OutboxStatus

pub data AttemptStatus : Type 0 where
  success failed dlq : AttemptStatus

pub record Product : Type 0 where
  pub id : String
  pub sku : String
  pub name : String
  pub description : Option String
  pub image_url : Option String
  pub brand : Option String
  pub active : Bool

pub record ProductPrice : Type 0 where
  pub product_id : String
  pub price_cents : ℕ
  pub currency : String

pub record Inventory : Type 0 where
  pub product_id : String
  pub erp_qty : ℕ
  pub reserved_qty : ℕ
  pub available_qty : ℕ
  pub version : ℕ

pub record ProductStats : Type 0 where
  pub product_id : String
  pub popularity_score : ℕ
  pub view_count : ℕ
  pub sold_count : ℕ

pub record DeviceModel : Type 0 where
  pub id : String
  pub brand : String
  pub model : String
  pub slug : String

pub record ProductCompatibility : Type 0 where
  pub product_id : String
  pub device_model_id : String

pub record OrderItem : Type 0 where
  pub product_id : String
  pub sku : String
  pub product_name : String
  pub quantity : ℕ
  pub unit_price_cents : ℕ

pub record Order : Type 0 where
  pub id : String
  pub customer_id : String
  pub idempotency_key : String
  pub status : OrderStatus
  pub total_cents : ℕ
  pub currency : String
  pub erp_invoice_id : Option String
  pub failure_reason : Option String
  pub items : List OrderItem

-- The body that a checkout answers with, which is also stored for replays.
pub record AcceptedResponse : Type 0 where
  pub order_id : String
  pub status : OrderStatus
  pub total_cents : ℕ
  pub currency : String

pub record IdempotencyKey : Type 0 where
  pub customer_id : String
  pub key : String
  pub request_hash : String
  pub status : IdempotencyStatus
  pub response_body : Option AcceptedResponse
  pub order_id : Option String

-- The payload of an `OrderAccepted` event. The ids are undefined outside a request.
pub record OutboxPayload : Type 0 where
  pub order_id : Option String
  pub customer_id : Option String
  pub idempotency_key : Option String
  pub total_cents : ℕ
  pub currency : String
  pub correlation_id : Option String
  pub request_id : Option String
  pub trace_id : Option String

pub record OutboxEvent : Type 0 where
  pub id : String
  pub aggregate_type : String
  pub aggregate_id : String
  pub event_type : String
  pub payload : OutboxPayload
  pub status : OutboxStatus
  pub attempts : ℕ
  pub last_error : Option String
  pub order_id : Option String

pub record IntegrationAttempt : Type 0 where
  pub order_id : String
  pub operation : String
  pub attempt_number : ℕ
  pub status : AttemptStatus
  pub error_message : Option String
  pub correlation_id : Option String

-- `next_id` counts the ids that the database has handed out; `catalog_version` is the row of key
-- `catalog`, if it is there.
pub record Db : Type 0 where
  pub products : List Product
  pub prices : List ProductPrice
  pub inventory : List Inventory
  pub stats : List ProductStats
  pub device_models : List DeviceModel
  pub compatibilities : List ProductCompatibility
  pub orders : List Order
  pub idempotency_keys : List IdempotencyKey
  pub outbox_events : List OutboxEvent
  pub attempts : List IntegrationAttempt
  pub catalog_version : Option ℕ
  pub next_id : ℕ
