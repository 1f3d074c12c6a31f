-- ===== src/Billing/Consumer.antt =====
-- apps/order-worker/src/billing.consumer.ts and worker-runner.service.ts.
pub mod Invoices
pub mod Exhaustion
pub mod Consistency
use casecellshop.Base.{
  ℕ, ◌+◌, String, Bool, true, false, ◌&&◌, Option, none, some, List, [], ◌∷◌, ◌++◌, concat,
  if◌then◌else◌, or_else, find, update_many, is_some, leb, eqb, ◌==◌,
}
use casecellshop.Action.{Error, prisma, ok, err, Action, pure, throw, ◌>>=◌, ◌>>◌}
use casecellshop.Store.{Db, Order, OrderStatus, IntegrationAttempt, AttemptStatus}
use casecellshop.Erp.Clients.{request_billing}
use casecellshop.Queue.Broker.{BillingMessage, Headers, Message, publish_to_retry, publish_to_dlq}
use casecellshop.Plant.{Plant, statement, queue, message_of}

abbrev pub has_id : String → Order → Bool
has_id id order = order.id == id

-- `order.findUniqueOrThrow`
abbrev pub find_order : String → Action Db Order
find_order id db = elim (find (has_id id) db.orders) [
  | none ↦ (err (prisma "P2025"), db)
  | some order ↦ (ok order, db)
]

-- `order.update`, which throws where the row is missing.
abbrev pub update_order : String → (Order → Order) → Action Db (Unit {0})
update_order id change db =
    if is_some (find (has_id id) db.orders)
    then (ok tt, record db { orders = update_many (has_id id) change db.orders })
    else (err (prisma "P2025"), db)

abbrev pub is_billed : Order → Bool
is_billed order = elim order.status [ OrderStatus.billed ↦ true | _ ↦ false ]

-- `undefined` leaves a column as it is.
abbrev or_kept : Option String → Option String → Option String
or_kept none old = old
or_kept (some new) old = some new

abbrev pub mark_billed : Option String → Order → Order
mark_billed invoice order = record order {
  status = OrderStatus.billed;
  erp_invoice_id = or_kept invoice order.erp_invoice_id;
  failure_reason = none;
}

abbrev pub billing_key : String → String
billing_key id = concat ("order:" ∷ id ∷ ":billing" ∷ [])

unfoldable pub process_message : BillingMessage → Action Plant (Unit {0})
process_message message = do
  order ← statement (find_order message.order_id)
  if is_billed order then pure tt else (do
    invoice ← request_billing order.id (billing_key order.id)
    statement (update_order order.id (mark_billed invoice.invoice_id)))

-- `integrationAttempt.create`: P2002 where (orderId, operation, attemptNumber) is taken, P2003 where
-- the order is missing.
abbrev pub same_attempt : IntegrationAttempt → IntegrationAttempt → Bool
same_attempt a b =
    a.order_id == b.order_id
    && (a.operation == b.operation && eqb a.attempt_number b.attempt_number)

abbrev pub create_attempt : IntegrationAttempt → Action Db (Unit {0})
create_attempt attempt db =
    if is_some (find (has_id attempt.order_id) db.orders)
    then (if is_some (find (same_attempt attempt) db.attempts)
        then (err (prisma "P2002"), db)
        else (ok tt, record db { attempts = db.attempts ++ attempt ∷ [] }))
    else (err (prisma "P2003"), db)

abbrev pub max_attempts : ℕ
max_attempts = 4

abbrev pub attempt_of : BillingMessage → ℕ
attempt_of message = or_else message.attempt 1

abbrev or_key : BillingMessage → String
or_key message = or_else message.correlation_id message.idempotency_key

abbrev pub failed_attempt : BillingMessage → Error → IntegrationAttempt
failed_attempt message e = record {
  order_id = message.order_id;
  operation = "billing";
  attempt_number = attempt_of message;
  status =
      if leb max_attempts (attempt_of message) then AttemptStatus.dlq else AttemptStatus.failed;
  error_message = some (message_of e);
  correlation_id = some (or_key message);
}

abbrev pub mark_erp_failed : Order → Order
mark_erp_failed order = record order {
  status = OrderStatus.erp_failed;
  failure_reason = some "Moved to DLQ after retries";
}

-- The message with another attempt number, and its headers.
abbrev pub resend : ℕ → BillingMessage → Message
resend attempt message = record {
  message_id = none;
  headers = record {
    order_id = message.order_id;
    customer_id = message.customer_id;
    idempotency_key = message.idempotency_key;
    correlation_id = or_else message.correlation_id "";
    request_id = or_else message.request_id "";
    trace_id = or_else message.trace_id "";
  };
  content = some (record message { attempt = some attempt });
}

-- The `catch` block, which ends by throwing the error again.
unfoldable pub handle_failure : BillingMessage → Error → Action Plant (Unit {0})
handle_failure message e = do
  statement (create_attempt (failed_attempt message e))
  if leb max_attempts (attempt_of message)
      then (do
        statement (update_order message.order_id mark_erp_failed)
        queue (publish_to_dlq (resend (attempt_of message) message)))
      else queue (publish_to_retry (resend (attempt_of message + 1) message))
  throw e

unfoldable pub process_with_retry : BillingMessage → Action Plant (Unit {0})
unfolding process_message handle_failure
process_with_retry message s =
    let (r, s') = process_message message s in
    elim r [ ok u ↦ (ok tt, s') | err e ↦ handle_failure message e s' ]

-- `message.x ?? headers.x`
abbrev or_header : Option String → String → Option String
or_header none header = some header
or_header (some text) header = some text

abbrev pub with_headers : Headers → BillingMessage → BillingMessage
with_headers h message = record message {
  correlation_id = or_header message.correlation_id h.correlation_id;
  request_id = or_header message.request_id h.request_id;
  trace_id = or_header message.trace_id h.trace_id;
}

-- What `consumeJson` and the worker's handler make of one message. An error is logged, and the message
-- is acknowledged whatever happened; one that is no JSON is acknowledged at once.
unfoldable pub handle_message : Message → Plant → Plant
unfolding process_with_retry
handle_message m s = elim m.content [
  | none ↦ s
  | some message ↦ (process_with_retry (with_headers m.headers message) s).1
]

abbrev pub consume_first : List Message → Plant → Plant
consume_first [] s = s
consume_first (m ∷ ms) s = handle_message m (record s { broker = record s.broker { billing = ms } })

-- The billing queue hands out its oldest message.
unfoldable pub consume : Plant → Plant
unfolding handle_message
consume s = consume_first s.broker.billing s
