-- ===== src/System.antt =====
-- The services at work on one database: the API (apps/api), the outbox worker (apps/outbox-worker), the
-- order worker (apps/order-worker), the order half of the reconciliation worker
-- (apps/reconciliation-worker) and the broker between them.
pub mod Consistency
pub mod Attempts
pub mod Fulfilment
use casecellshop.Base.{ℕ, String, Bool, Option, List}
use casecellshop.World.{World}
use casecellshop.Queue.Broker.{expire_retry}
use casecellshop.Plant.{Plant, Network}
use casecellshop.Outbox.Publisher.{flush_pending_outbox}
use casecellshop.Billing.Consumer.{consume}
use casecellshop.Reconciliation.Orders.{reconcile_orders}
use casecellshop.Checkout.Request.{Platform, CheckoutRequest}
use casecellshop.Checkout.Service.{checkout}
use casecellshop.Erp.Service.{enable_billing_failure, clear_billing_failure}

-- One turn of one service. The API's process has its own state, of which it shares the database; the
-- faults of the database, the broker and the network may be any.
pub data Step (p : Platform) : Plant → Plant → Type 0 where
  checked_out :
      (fails : Bool) (tracer : Option (ℕ → String)) (customer key : Option String)
      (body : CheckoutRequest) (w : World) (s : Plant)
      → Step p
          (record s { db = w.db })
          (record s {
            db = (checkout (record p { version_fails = fails }) tracer customer key body w).1.db;
          })
  flushed : (enabled : Bool) (s : Plant) → Step p s (flush_pending_outbox enabled s)
  consumed : (s : Plant) → Step p s (consume s)
  expired : (s : Plant) → Step p s (record s { broker = expire_retry s.broker })
  reconciled : (s : Plant) → Step p s (reconcile_orders s).1
  erp_failing :
      (order : String) (s : Plant)
      → Step p s (record s { erp = enable_billing_failure order s.erp })
  erp_mended :
      (order : String) (s : Plant) → Step p s (record s { erp = clear_billing_failure order s.erp })
  struck :
      (db_faults broker_faults losses : List Bool) (network : List Network) (s : Plant)
      → Step p s (record s {
        db_faults = db_faults;
        network = network;
        broker = record s.broker { faults = broker_faults; losses = losses };
      })

-- Any number of turns, in any order.
pub data Steps (p : Platform) : Plant → Plant → Type 0 where
  here : (s : Plant) → Steps p s s
  after : {s t u : Plant} → Steps p s t → Step p t u → Steps p s u
