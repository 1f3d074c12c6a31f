-- ===== src/System/Attempts/Turns.antt =====
-- The attempt numbers of queued messages over the turns of the outbox worker, the order worker, the
-- reconciliation and the retry queue.
use Prim.Native.Nat.{◌+◌}
use casecellshop.Base.{
  String, Bool, true, false, ◌≡◌, refl, Option, none, some, List, [], ◌∷◌, All, All-append, arith,
  inl, inr, Bool-cases, Option-cases, if◌then◌else◌, leb, ltb, select,
}
use casecellshop.Action.{Error, ok, Action, pure, throw, gets, modify, ◌>>=◌, ◌>>◌, Result-cases}
use casecellshop.Store.{Order, OutboxEvent}
use casecellshop.Plant.{Plant, statement, queue, message_of}
use casecellshop.Queue.Broker.{
  BillingMessage, Message, ensure_topology, publish, publish_to_retry, publish_to_dlq, expire,
  expire_retry,
}
use casecellshop.Erp.Clients.{request_billing, request_status}
use casecellshop.Erp.Clients.Calls.{request_billing-Calls, request_status-Asks}
use casecellshop.Outbox.Publisher.{
  publish_event, publish_events, publish_pending, flush_pending_outbox, update_event,
  mark_published, mark_failed, message_for, pending_events, catch,
}
use casecellshop.Billing.Consumer.{
  process_message, handle_failure, process_with_retry, handle_message, consume, consume_first,
  find_order, update_order, mark_billed, mark_erp_failed, billing_key, create_attempt, is_billed,
  failed_attempt, max_attempts, attempt_of, resend, with_headers,
}
use casecellshop.Reconciliation.Orders.{
  is_open, Tally, settle, reconcile_each, report, reconcile_orders,
}
use casecellshop.Checkout.Request.{Platform}
use casecellshop.System.{
  Step, Steps, checked_out, flushed, consumed, expired, reconciled, erp_failing, erp_mended, struck,
  here, after,
}
use casecellshop.System.Attempts.{
  IsWithin, AreWithin, Keeps, KeepsQueues, bind-Keeps, statement-Keeps, ensure_topology-Keeps,
  publish_to_retry-Keeps, publish_to_dlq-Keeps, publish-Keeps, message_for-IsWithin,
}

publish_event-Keeps : (event : OutboxEvent) → Keeps (publish_event event)
unfolding publish_event
publish_event-Keeps event s v =
    let send : Action Plant (Unit {0}) =
      queue (publish "orders" "billing" (message_for event))
      >> statement (update_event event.id mark_published) in
    let sent : AreWithin (send s).1.broker =
      bind-Keeps (queue (publish "orders" "billing" (message_for event)))
        (λ u. statement (update_event event.id mark_published)) s
        (publish-Keeps "orders" "billing" (message_for event) (message_for-IsWithin event) s.broker
          v)
        (λ u. statement-Keeps (update_event event.id mark_published)) in
    elim (Result-cases (send s).0) [
      | inl (e, fails) ↦
          rw (fails, catch)
            (statement-Keeps (update_event event.id (mark_failed (message_of e))) (send s).1 sent)
      | inr (u, runs) ↦ rw (runs, catch) sent
    ]

publish_events-Keeps : (events : List OutboxEvent) → Keeps (publish_events events)
unfolding publish_events
publish_events-Keeps [] s v = v
publish_events-Keeps (event ∷ events) s v =
    bind-Keeps (publish_event event) (λ u. publish_events events) s (publish_event-Keeps event s v)
      (λ u. publish_events-Keeps events)

flush_pending_outbox-AreWithin :
    (enabled : Bool) (s : Plant)
    → AreWithin s.broker
    → AreWithin (flush_pending_outbox enabled s).broker
unfolding flush_pending_outbox publish_pending
flush_pending_outbox-AreWithin false s v = v
flush_pending_outbox-AreWithin true s v =
    bind-Keeps (queue ensure_topology) (λ u. statement (gets pending_events) >>= publish_events) s
      (ensure_topology-Keeps s.broker v)
      (λ u t w.
        bind-Keeps (statement (gets pending_events)) publish_events t
          (statement-Keeps (gets pending_events) t w) publish_events-Keeps)

request_billing-Keeps : (order key : String) → Keeps (request_billing order key)
request_billing-Keeps order key s v = rw ((request_billing-Calls order key s).broker) v

abbrev bill : Order → Action Plant (Unit {0})
bill order = do
  invoice ← request_billing order.id (billing_key order.id)
  statement (update_order order.id (mark_billed invoice.invoice_id))

bill-Keeps : (order : Order) → Keeps (if is_billed order then pure tt else bill order)
bill-Keeps order s v = elim (Bool-cases (is_billed order)) [
  | inl done ↦ rw done v
  | inr unbilled ↦ rw unbilled (
      bind-Keeps (request_billing order.id (billing_key order.id))
        (λ r. statement (update_order order.id (mark_billed r.invoice_id))) s
        (request_billing-Keeps order.id (billing_key order.id) s v)
        (λ r. statement-Keeps (update_order order.id (mark_billed r.invoice_id))))
]

process_message-Keeps : (message : BillingMessage) → Keeps (process_message message)
unfolding process_message
process_message-Keeps message s v =
    bind-Keeps (statement (find_order message.order_id))
      (λ order. if is_billed order then pure tt else bill order) s
      (statement-Keeps (find_order message.order_id) s v) bill-Keeps

abbrev retry_or_dlq : BillingMessage → Action Plant (Unit {0})
retry_or_dlq message =
    if leb max_attempts (attempt_of message)
    then (statement (update_order message.order_id mark_erp_failed)
        >> queue (publish_to_dlq (resend (attempt_of message) message)))
    else queue (publish_to_retry (resend (attempt_of message + 1) message))

retry_or_dlq-Keeps : (message : BillingMessage) → Keeps (retry_or_dlq message)
retry_or_dlq-Keeps message s v = elim (Bool-cases (leb max_attempts (attempt_of message))) [
  | inl last ↦ rw last (
      bind-Keeps (statement (update_order message.order_id mark_erp_failed))
        (λ u. queue (publish_to_dlq (resend (attempt_of message) message))) s
        (statement-Keeps (update_order message.order_id mark_erp_failed) s v)
        (λ u t w. publish_to_dlq-Keeps (resend (attempt_of message) message) t.broker w))
  | inr more ↦
      rw more
        (publish_to_retry-Keeps (resend (attempt_of message + 1) message) (ground arith) s.broker v)
]

handle_failure-Keeps : (message : BillingMessage) (e : Error) → Keeps (handle_failure message e)
unfolding handle_failure
handle_failure-Keeps message e s v =
    bind-Keeps (statement (create_attempt (failed_attempt message e)))
      (λ u. retry_or_dlq message >> throw e) s
      (statement-Keeps (create_attempt (failed_attempt message e)) s v)
      (λ u t w.
        bind-Keeps (retry_or_dlq message) (λ x. throw e) t (retry_or_dlq-Keeps message t w)
          (λ x t' w'. w'))

process_with_retry-Keeps : (message : BillingMessage) → Keeps (process_with_retry message)
unfolding process_with_retry
process_with_retry-Keeps message s v =
    let processed = process_message-Keeps message s v in
    elim (Result-cases (process_message message s).0) [
      | inl (e, failed) ↦
          rw (failed, process_with_retry)
            (handle_failure-Keeps message e (process_message message s).1 processed)
      | inr (u, done) ↦ rw (done, process_with_retry) processed
    ]

handle_message-AreWithin :
    (m : Message) (s : Plant) → AreWithin s.broker → AreWithin (handle_message m s).broker
unfolding handle_message
handle_message-AreWithin m s v = elim (Option-cases m.content) [
  | inl nothing ↦ rw (nothing, handle_message) v
  | inr (message, has) ↦
      rw (has, handle_message) (process_with_retry-Keeps (with_headers m.headers message) s v)
]

-- The handling of the billing queue's oldest message leaves no message on the billing or the retry queue
-- with an attempt number above four, where there was none before.
consume-AreWithin : (s : Plant) → AreWithin s.broker → AreWithin (consume s).broker
unfolding consume
consume-AreWithin s v =
    elim s.broker.billing as (λ ms. All IsWithin ms → AreWithin (consume_first ms s).broker) [
      | [] ↦ λ h. v
      | m ∷ ms ↦ λ h.
          handle_message-AreWithin m (record s { broker = record s.broker { billing = ms } })
            (record { billing = h.1; retry = v.retry })
    ]
      v.billing

expire_retry-AreWithin : KeepsQueues (λ b. (ok tt, expire_retry b))
unfolding expire_retry
expire_retry-AreWithin b v =
    elim b.retry as (λ ms. All IsWithin ms → AreWithin (expire ms b)) [
      | [] ↦ λ h. v
      | m ∷ ms ↦ λ h. record {
        billing = All-append IsWithin b.billing (m ∷ []) v.billing (h.0, tt);
        retry = h.1;
      }
    ]
      v.retry

settle-Keeps : (order : Order) (answer : Option String) (t : Tally) → Keeps (settle order answer t)
unfolding settle
settle-Keeps order none t s v = v
settle-Keeps order (some x) t s v = elim (Bool-cases (is_billed order)) [
  | inl done ↦ rw done v
  | inr unbilled ↦ rw unbilled (
      bind-Keeps (statement (update_order order.id (mark_billed (some x))))
        (λ u. pure (record t { repaired = t.repaired + 1 })) s
        (statement-Keeps (update_order order.id (mark_billed (some x))) s v) (λ u t w. w))
]

reconcile_each-Keeps : (orders : List Order) (t : Tally) → Keeps (reconcile_each orders t)
unfolding reconcile_each
reconcile_each-Keeps [] t s v = v
reconcile_each-Keeps (order ∷ orders) t s v =
    bind-Keeps (request_status order.id) (λ answer. settle order answer t >>= reconcile_each orders)
      s (rw ((request_status-Asks order.id s).broker) v)
      (λ answer s' v'.
        bind-Keeps (settle order answer t) (reconcile_each orders) s'
          (settle-Keeps order answer t s' v') (reconcile_each-Keeps orders))

report-broker : (t : Tally) (s : Plant) → (report t s).broker ≡ s.broker
report-broker t s = elim (Bool-cases (ltb 0 t.divergences)) [
  | inl some_open ↦ rw some_open refl
  | inr none_open ↦ rw none_open refl
]

reconcile_orders-Keeps : Keeps reconcile_orders
unfolding reconcile_orders
reconcile_orders-Keeps s v =
    bind-Keeps (statement (gets (λ db. select is_open db.orders)))
      (λ orders. reconcile_each orders (record { repaired = 0; divergences = 0 }) >>= λ t.
        modify (report t) >> pure t)
      s (statement-Keeps (gets (λ db. select is_open db.orders)) s v)
      (λ orders s' v'.
        bind-Keeps (reconcile_each orders (record { repaired = 0; divergences = 0 }))
          (λ t. modify (report t) >> pure t) s' (reconcile_each-Keeps orders _ s' v')
          (λ t s'' v''. rw (report-broker t s'') v''))

-- A turn of any service.
Step-AreWithin : (p : Platform) (s t : Plant) → Step p s t → AreWithin s.broker → AreWithin t.broker
Step-AreWithin p _ _ (checked_out fails tracer customer key body w s) v = v
Step-AreWithin p _ _ (flushed enabled s) v = flush_pending_outbox-AreWithin enabled s v
Step-AreWithin p _ _ (consumed s) v = consume-AreWithin s v
Step-AreWithin p _ _ (expired s) v = expire_retry-AreWithin s.broker v
Step-AreWithin p _ _ (reconciled s) v = reconcile_orders-Keeps s v
Step-AreWithin p _ _ (erp_failing order s) v = v
Step-AreWithin p _ _ (erp_mended order s) v = v
Step-AreWithin p _ _ (struck d b l n s) v = record { billing = v.billing; retry = v.retry }

-- From a state in which no message on the billing or the retry queue has an attempt number above four,
-- no sequence of turns of the services, with whatever failures, leads to one in which some message has:
-- nothing is retried after its fourth attempt.
pub Steps-AreWithin :
    (p : Platform) (s t : Plant) → Steps p s t → AreWithin s.broker → AreWithin t.broker
Steps-AreWithin p s _ (here _) v = v
Steps-AreWithin p s _ (after {t = t} {u = u} before step) v =
    Step-AreWithin p t u step (Steps-AreWithin p s t before v)
