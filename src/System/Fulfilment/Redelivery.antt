-- ===== src/System/Fulfilment/Redelivery.antt =====
-- A message that the broker delivers twice: `processWithRetry` of apps/order-worker/src/billing.consumer.ts.
use casecellshop.Base.{
  ◌≡◌, refl, ◌∙◌, ap, true, false, none, some, List, ◌∷◌, find, contains, if◌then◌else◌, sym,
  or_else, Bool,
}
use casecellshop.Base.Assoc.{lookup}
use casecellshop.Action.{Result, ok, err, Action, pure, ◌>>=◌}
use casecellshop.Action.Laws.{bind-runs}
use casecellshop.Store.{Db, Order, OutboxEvent}
use casecellshop.Observability.Metrics.{Metrics, record_erp_request}
use casecellshop.Erp.Service.{Erp, new_receipt}
use casecellshop.Erp.Clients.{request_billing}
use casecellshop.Queue.Broker.{BillingMessage, Message}
use casecellshop.Plant.{Plant, statement}
use casecellshop.Outbox.Publisher.{message_for, content_of}
use casecellshop.Billing.Consumer.{
  has_id, find_order, update_order, is_billed, mark_billed, billing_key, process_message,
  process_with_retry, handle_message, handle_failure, consume, with_headers,
}
use casecellshop.Billing.Consumer.Exhaustion.{steady, found_order}
use casecellshop.System.Fulfilment.{billed_db, billed_erp, consume-bills}
use casecellshop.System.Fulfilment.Accepted.{find-updated}

module _ (message : BillingMessage) (order : Order) (db : Db) (erp : Erp) (metrics : Metrics)
    (bound : Bool) (billing retry dlq : List Message) where
  abbrev settled : Plant
  settled = steady db erp metrics bound billing retry dlq

  process_message-billed :
      find (has_id message.order_id) db.orders ≡ some order
      → is_billed order ≡ true
      → process_message message settled ≡ (ok tt, settled)
  unfolding process_message
  process_message-billed found done =
      let bill : Order → Action Plant (Unit {0}) = λ o.
        request_billing o.id (billing_key o.id) >>= λ invoice.
        statement (update_order o.id (mark_billed invoice.invoice_id)) in
      let next : Order → Action Plant (Unit {0}) = λ o. if is_billed o then pure tt else bill o in
      bind-runs (statement (find_order message.order_id)) next settled
        (found_order message order db erp metrics bound billing retry dlq message.order_id found)
      ∙ ap (λ t. (if t then pure tt else bill order) settled) done

  consume-billed :
      (event : OutboxEvent)
      → with_headers (message_for event).headers (content_of event.payload) ≡ message
      → find (has_id message.order_id) db.orders ≡ some order
      → is_billed order ≡ true
      → consume (steady db erp metrics bound (message_for event ∷ billing) retry dlq) ≡ settled
  unfolding consume handle_message process_with_retry
  consume-billed event same found done =
      let answer : Result (Unit {0}) × Plant → Result (Unit {0}) × Plant =
        λ x. elim x.0 [ ok u ↦ (ok tt, x.1) | err e ↦ handle_failure message e x.1 ] in
      ap (λ held. (process_with_retry held settled).1) same
      ∙ ap (λ (x : Result (Unit {0}) × Plant). (answer x).1) (process_message-billed found done)

-- Where nothing fails, the message of an open order that the ERP neither refuses nor has billed, delivered twice,
-- has the order billed once: both messages are consumed, the ERP holds one new receipt and was asked once, the
-- order has its invoice, and nothing else has changed.
pub consume_twice :
    (event : OutboxEvent) (order : Order) (db : Db) (erp : Erp) (metrics : Metrics) (bound : Bool)
    (billing retry dlq : List Message)
    → event.payload.order_id ≡ some order.id
    → find (has_id order.id) db.orders ≡ some order
    → is_billed order ≡ false
    → contains order.id erp.fail_billing_for ≡ false
    → lookup (billing_key order.id) erp.billing_by_key ≡ none
    → let m = message_for event in
      consume (consume (steady db erp metrics bound (m ∷ m ∷ billing) retry dlq))
      ≡ steady
          (billed_db order.id order erp db)
          (billed_erp order erp)
          (record_erp_request "billing" "success" metrics)
          bound
          billing
          retry
          dlq
consume_twice event order db erp metrics bound billing retry dlq about found open_ accepting new =
    let m = message_for event in
    let message = with_headers m.headers (content_of event.payload) in
    let named : message.order_id ≡ order.id = ap (λ o. or_else o "") about in
    let invoice = some (new_receipt order.id erp).invoice_id in
    let there : find (has_id message.order_id) db.orders ≡ some order =
      ap (λ id. find (has_id id) db.orders) named ∙ found in
    let changed : find (has_id message.order_id) (billed_db order.id order erp db).orders
        ≡ some (mark_billed invoice order) =
      ap (λ id. find (has_id id) (billed_db order.id order erp db).orders) named
      ∙ find-updated order.id (mark_billed invoice) db.orders order (λ o. refl) found in
    ap consume (
      consume-bills message order db erp metrics bound (m ∷ billing) retry dlq event refl there
        (sym named) open_ accepting new)
    ∙ consume-billed message (mark_billed invoice order) (billed_db order.id order erp db)
        (billed_erp order erp) (record_erp_request "billing" "success" metrics) bound billing retry
        dlq event refl changed refl
