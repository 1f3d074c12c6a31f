-- ===== src/System/Fulfilment.antt =====
-- The way of an order while nothing fails: `checkout` of apps/api, the flush of apps/outbox-worker, and the
-- delivery to apps/order-worker, which has the ERP bill it.
pub mod Accepted
pub mod Redelivery
use casecellshop.Base.{
  ℕ, ◌+◌, String, Bool, true, false, ◌≡◌, refl, sym, ap, ◌∙◌, inl, inr, Option, none, some, List,
  [], ◌∷◌, ◌++◌, find, select, take, update_many, if◌then◌else◌, contains, concat, decimal, arith,
  ◌==◌, eq_refl, Bool-cases,
}
use casecellshop.Base.Assoc.{lookup, insert}
use casecellshop.Action.{Result, ok, err, Action, pure, gets, ◌>>=◌, ◌>>◌}
use casecellshop.Action.Laws.{bind-runs}
use casecellshop.Store.{Db, Order, OrderStatus, OutboxEvent, OutboxStatus}
use casecellshop.World.{World}
use casecellshop.Observability.Metrics.{Metrics, record_erp_request}
use casecellshop.Erp.Service.{Erp, ReceiptJson, bill_order, new_receipt}
use casecellshop.Erp.Clients.{request_billing}
use casecellshop.Queue.Broker.{BillingMessage, Message, ensure_topology, get_channel, publish}
use casecellshop.Plant.{Plant, statement, queue, fetch}
use casecellshop.Outbox.Publisher.{
  is_pending, pending_events, message_for, content_of, mark_published, update_event, publish_event,
  publish_events, publish_pending, flush_pending_outbox,
}
use casecellshop.Billing.Consumer.{
  has_id, find_order, update_order, is_billed, mark_billed, billing_key, process_message,
  process_with_retry, handle_message, handle_failure, consume, with_headers,
}
use casecellshop.Billing.Consumer.Exhaustion.{steady, found_order, order_updated}

-- A flush with one pending event.
module _ (event : OutboxEvent) (db : Db) (erp : Erp) (metrics : Metrics) (bound : Bool)
    (billing retry dlq : List Message) where
  abbrev pub marked : Db
  marked = record db {
    outbox_events = update_many (λ e. e.id == event.id) mark_published db.outbox_events;
  }

  publish_event-sends :
      publish_event event (steady db erp metrics true billing retry dlq)
      ≡ (ok tt, steady marked erp metrics true (billing ++ message_for event ∷ []) retry dlq)
  unfolding publish_event publish get_channel statement
  publish_event-sends = refl

  pub flush-sends :
      pending_events db ≡ event ∷ []
      → flush_pending_outbox true (steady db erp metrics bound billing retry dlq)
        ≡ steady marked erp metrics true (billing ++ message_for event ∷ []) retry dlq
  unfolding flush_pending_outbox publish_pending publish_events ensure_topology get_channel
      statement
  flush-sends one =
      let here = steady db erp metrics true billing retry dlq in
      ap (λ events. (publish_events events here).1) one
      ∙ ap (λ (x : Result (Unit {0}) × Plant). x.1)
          (bind-runs (publish_event event) (λ u. pure tt) here publish_event-sends)

-- The database after the ERP has billed the order.
abbrev pub billed_db : String → Order → Erp → Db → Db
billed_db id order erp db = record db {
  orders =
      update_many (has_id id) (mark_billed (some (new_receipt order.id erp).invoice_id)) db.orders;
}

abbrev pub billed_erp : Order → Erp → Erp
billed_erp order erp = record erp {
  billing_by_key = insert (billing_key order.id) (new_receipt order.id erp) erp.billing_by_key;
  billing_by_order_id = insert order.id (new_receipt order.id erp) erp.billing_by_order_id;
}

module _ (message : BillingMessage) (order : Order) (db : Db) (erp : Erp) (metrics : Metrics)
    (bound : Bool) (billing retry dlq : List Message) where
  abbrev start : Plant
  start = steady db erp metrics bound billing retry dlq

  request_billing-bills :
      contains order.id erp.fail_billing_for ≡ false
      → lookup (billing_key order.id) erp.billing_by_key ≡ none
      → request_billing order.id (billing_key order.id) start ≡ (
        ok (record { invoice_id = some (new_receipt order.id erp).invoice_id }),
        steady db
            (billed_erp order erp)
            (record_erp_request "billing" "success" metrics)
            bound
            billing
            retry
            dlq,
      )
  unfolding request_billing fetch bill_order
  request_billing-bills accepting new = rw (accepting, new) refl

  process_message-bills :
      find (has_id message.order_id) db.orders ≡ some order
      → order.id ≡ message.order_id
      → is_billed order ≡ false
      → contains order.id erp.fail_billing_for ≡ false
      → lookup (billing_key order.id) erp.billing_by_key ≡ none
      → process_message message start ≡ (
        ok tt,
        steady
            (billed_db order.id order erp db)
            (billed_erp order erp)
            (record_erp_request "billing" "success" metrics)
            bound
            billing
            retry
            dlq,
      )
  unfolding process_message
  process_message-bills found named open_ accepting new =
      let save : ReceiptJson → Action Plant (Unit {0}) =
        λ invoice. statement (update_order order.id (mark_billed invoice.invoice_id)) in
      let bill : Order → Action Plant (Unit {0}) = λ o.
        request_billing o.id (billing_key o.id) >>= λ invoice.
        statement (update_order o.id (mark_billed invoice.invoice_id)) in
      let next : Order → Action Plant (Unit {0}) = λ o. if is_billed o then pure tt else bill o in
      bind-runs (statement (find_order message.order_id)) next start
        (found_order message order db erp metrics bound billing retry dlq message.order_id found)
      ∙ ap (λ t. (if t then pure tt else bill order) start) open_
      ∙ bind-runs (request_billing order.id (billing_key order.id)) save start
          (request_billing-bills accepting new)
      ∙ order_updated message order db (billed_erp order erp)
          (record_erp_request "billing" "success" metrics) bound billing retry dlq order.id
          (mark_billed (some (new_receipt order.id erp).invoice_id))
          (ap (λ id. find (has_id id) db.orders) named ∙ found)

  pub consume-bills :
      (event : OutboxEvent)
      → with_headers (message_for event).headers (content_of event.payload) ≡ message
      → find (has_id message.order_id) db.orders ≡ some order
      → order.id ≡ message.order_id
      → is_billed order ≡ false
      → contains order.id erp.fail_billing_for ≡ false
      → lookup (billing_key order.id) erp.billing_by_key ≡ none
      → consume (steady db erp metrics bound (message_for event ∷ billing) retry dlq)
        ≡ steady
            (billed_db order.id order erp db)
            (billed_erp order erp)
            (record_erp_request "billing" "success" metrics)
            bound
            billing
            retry
            dlq
  unfolding consume handle_message process_with_retry
  consume-bills event same found named open_ accepting new =
      let answer : Result (Unit {0}) × Plant → Result (Unit {0}) × Plant =
        λ x. elim x.0 [ ok u ↦ (ok tt, x.1) | err e ↦ handle_failure message e x.1 ] in
      ap (λ held. (process_with_retry held start).1) same
      ∙ ap (λ (x : Result (Unit {0}) × Plant). (answer x).1)
          (process_message-bills found named open_ accepting new)
