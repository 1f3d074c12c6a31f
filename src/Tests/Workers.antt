-- ===== src/Tests/Workers.antt =====
-- The workers at the small shop.
use Prim.Native.Nat.{◌+◌, ◌-◌}
use casecellshop.Base.{
  arith, true, false, ◌≡◌, refl, none, some, List, All, [], ◌∷◌, length, select,
}
use casecellshop.Base.Assoc.{lookup}
use casecellshop.Action.{ok}
use casecellshop.Store.{Inventory, Order, OrderStatus}
use casecellshop.Observability.Metrics.{no_metrics}
use casecellshop.Queue.Broker.{Message, BillingMessage}
use casecellshop.Billing.Consumer.{attempt_of, mark_erp_failed}
use casecellshop.Billing.Consumer.Exhaustion.Rounds.{Waits, turn, consume_four_times}
use casecellshop.Checkout.Request.Locks.{IsDistinct}
use casecellshop.Erp.CatalogData.{build_large_catalog}
use casecellshop.Erp.CatalogData.Bounds.{ids_of, IsInRange, build_large_catalog-IsInRange}
use casecellshop.Erp.Service.{ErpCatalogProduct, BillingReceipt, bill_order, status_response}
use casecellshop.Erp.Service.Idempotence.{bill_order_again}
use casecellshop.Outbox.Publisher.{message_for}
use casecellshop.Observability.Metrics.{record_erp_request}
use casecellshop.Erp.Clients.Calls.{Calls, request_billing-Calls}
use casecellshop.Plant.{Plant, reply_lost, statement, fetch}
use casecellshop.Erp.Clients.{request_billing, request_status}
use casecellshop.Billing.Consumer.{consume}
use casecellshop.Billing.Consumer.Invoices.{IsConsistent}
use casecellshop.Billing.Consumer.Consistency.{consume-IsConsistent}
use casecellshop.Reconciliation.Orders.{is_open, reconcile_orders, reconcile_each, settle}
use casecellshop.Reconciliation.Orders.Consistency.{reconcile_orders-IsConsistent}
use casecellshop.Reconciliation.Orders.Counts.{IsCounted, reconcile_orders-counts}
use casecellshop.Reconciliation.Catalog.{
  sync_product, sync_compatibilities, find_inventory, reserved_now,
}
use casecellshop.Reconciliation.Catalog.Stock.{sync_product-keeps_reservations}
use casecellshop.System.{Steps, here, after, consumed, reconciled}
use casecellshop.Billing.Consumer.Exhaustion.{steady}
use casecellshop.System.Fulfilment.{billed_db, billed_erp}
use casecellshop.System.Fulfilment.Redelivery.{consume_twice}
use casecellshop.System.Attempts.{AreWithin}
use casecellshop.System.Attempts.Turns.{Steps-AreWithin}
use casecellshop.Outbox.Publisher.{publish_pending, pending_events}
use casecellshop.Outbox.Publisher.Delivery.{Sends}
use casecellshop.Outbox.Publisher.Flush.{publish_pending-Sends}
use casecellshop.System.Consistency.{Steps-IsConsistent}
use casecellshop.Tests.Samples.{
  message, first_message, a_pending_event, platform, order, plant, erp_product, shop, no_erp,
}

abbrev new_receipt : BillingReceipt
new_receipt = record { invoice_id = "inv-c0"; billed_at = 7 }

bill_order_again_example :
    bill_order "c0" "order:c0:billing" (bill_order "c0" "order:c0:billing" no_erp).1
    ≡ (ok new_receipt, (bill_order "c0" "order:c0:billing" no_erp).1)
unfolding bill_order lookup
bill_order_again_example = bill_order_again "c0" "c0" "order:c0:billing" no_erp refl refl

plant-IsConsistent : IsConsistent plant
unfolding lookup
plant-IsConsistent = record { keys = λ id. refl; orders = ((λ e. cc), tt) }

consume-IsConsistent_example : IsConsistent (consume plant)
consume-IsConsistent_example = consume-IsConsistent plant plant-IsConsistent

-- The delivery bills the order.
consume-bills : (consume plant).db.orders ≡ order "c0" OrderStatus.billed (some "inv-c0") ∷ []
unfolding consume statement request_billing fetch bill_order lookup
consume-bills = refl

reconcile_orders-IsConsistent_example : IsConsistent (reconcile_orders plant).1
reconcile_orders-IsConsistent_example = reconcile_orders-IsConsistent plant plant-IsConsistent

-- The ERP knows no invoice of the one open order.
reconciled_once : (reconcile_orders plant).0 ≡ ok (record { repaired = 0; divergences = 1 })
unfolding reconcile_orders reconcile_each settle statement request_status fetch status_response
    lookup
reconciled_once = refl

reconcile_orders-counts_example :
    IsCounted plant.erp
      (select is_open plant.db.orders)
      (record { repaired = 0; divergences = 0 })
      (record { repaired = 0; divergences = 1 })
reconcile_orders-counts_example =
    reconcile_orders-counts plant (record { repaired = 0; divergences = 1 }) reconciled_once

sync_product-ok : (sync_product platform.cuid erp_product shop).0 ≡ ok tt
unfolding sync_product sync_compatibilities
sync_product-ok = refl

sync_product-keeps_reservations_example :
    (row : Inventory) × (find_inventory "case-a" (sync_product platform.cuid erp_product shop).1
      ≡ some row)
    × (row.erp_qty ≡ 9)
    × (row.reserved_qty ≡ reserved_now (find_inventory "case-a" shop))
    × (row.available_qty ≡ 9 - reserved_now (find_inventory "case-a" shop))
sync_product-keeps_reservations_example =
    sync_product-keeps_reservations platform.cuid erp_product shop sync_product-ok

abbrev two_steps : Steps platform plant (reconcile_orders (consume plant)).1
two_steps = after (after (here plant) (consumed plant)) (reconciled (consume plant))

Steps-IsConsistent_example : IsConsistent (reconcile_orders (consume plant)).1
Steps-IsConsistent_example =
    Steps-IsConsistent platform plant (reconcile_orders (consume plant)).1 two_steps
      plant-IsConsistent

-- The network loses the ERP's answer.
abbrev plant_cut_off : Plant
plant_cut_off = record plant { network = reply_lost ∷ [] }

request_billing-Calls_example :
    let (r, s') = request_billing "c0" "order:c0:billing" plant_cut_off in
    Calls "c0" "order:c0:billing" plant_cut_off s' r
request_billing-Calls_example = request_billing-Calls "c0" "order:c0:billing" plant_cut_off

plant-AreWithin : AreWithin plant.broker
plant-AreWithin = record { billing = (omega arith, tt); retry = tt }

Steps-AreWithin_example : AreWithin (reconcile_orders (consume plant)).1.broker
Steps-AreWithin_example =
    Steps-AreWithin platform plant (reconcile_orders (consume plant)).1 two_steps plant-AreWithin

-- One event waits; the broker answers, and the database fails the mark.
abbrev plant_with_event : Plant
plant_with_event = record plant {
  db = record plant.db { outbox_events = a_pending_event ∷ [] };
  db_faults = false ∷ true ∷ [];
}

publish_pending-Sends_example :
    Sends (pending_events plant_with_event.db) plant_with_event (publish_pending plant_with_event).1
publish_pending-Sends_example = publish_pending-Sends plant_with_event

-- The ERP refuses to bill the order whose message is queued.
abbrev refusing_plant : Plant
refusing_plant = record plant { erp = record no_erp { fail_billing_for = "c0" ∷ [] } }

abbrev open_order : Order
open_order = order "c0" OrderStatus.pending_erp none

waiting : Waits "c0" open_order (open_order ∷ []) 0 1 [] refusing_plant
waiting = record {
  m = message;
  message = first_message;
  db = refusing_plant.db;
  erp = refusing_plant.erp;
  metrics = no_metrics;
  bound = true;
  is_state = refl;
  has_content = refl;
  is_of = refl;
  is_number = refl;
  has_orders = refl;
  is_found = refl;
  is_open = refl;
  is_refused = refl;
  is_before = tt;
  has_rows = refl;
}

consume_four_times_example :
    let s' = consume (turn (turn (turn refusing_plant))) in
    (d : Message) × (held : BillingMessage) × (d.content ≡ some held)
    × (held.order_id ≡ "c0")
    × (attempt_of held ≡ 4)
    × (s'.broker.dlq ≡ d ∷ [])
    × (s'.broker.billing ≡ [])
    × (s'.broker.retry ≡ [])
    × (s'.db.orders ≡ mark_erp_failed open_order ∷ [])
    × (length s'.db.attempts ≡ 0 + 4)
consume_four_times_example =
    consume_four_times "c0" open_order (open_order ∷ []) 0 [] refusing_plant waiting

build_large_catalog-IsInRange_example :
    (products : List ErpCatalogProduct) × (build_large_catalog 3 ≡ some products)
    × (length products ≡ 3)
    × IsDistinct (ids_of products)
    × All IsInRange products
build_large_catalog-IsInRange_example = build_large_catalog-IsInRange 3

-- The message of the open order stands twice on the billing queue.
consume_twice_example :
    let m = message_for a_pending_event in
    let db = record shop { orders = open_order ∷ [] } in
    consume (consume (steady db no_erp no_metrics true (m ∷ m ∷ []) [] []))
    ≡ steady
        (billed_db "c0" open_order no_erp db)
        (billed_erp open_order no_erp)
        (record_erp_request "billing" "success" no_metrics)
        true
        []
        []
        []
unfolding lookup
consume_twice_example =
    consume_twice a_pending_event open_order (record shop { orders = open_order ∷ [] }) no_erp
      no_metrics true [] [] [] refl refl refl refl refl
