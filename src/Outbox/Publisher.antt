-- ===== src/Outbox/Publisher.antt =====
-- apps/outbox-worker/src/outbox.publisher.ts and worker-runner.service.ts. `publishedAt` is left out.
pub mod Delivery
pub mod Flush
use casecellshop.Base.{
  ◌+◌, String, Bool, true, false, none, some, List, [], ◌∷◌, or_else, select, take, update_many,
  ◌==◌,
}
use casecellshop.Action.{Error, ok, err, Action, pure, gets, modify, ◌>>=◌, ◌>>◌}
use casecellshop.Store.{Db, OutboxEvent, OutboxPayload, OutboxStatus}
use casecellshop.Queue.Broker.{BillingMessage, Headers, Message, ensure_topology, publish}
use casecellshop.Plant.{Plant, statement, queue, message_of}

abbrev pub is_pending : OutboxEvent → Bool
is_pending event = elim event.status [ OutboxStatus.pending ↦ true | _ ↦ false ]

-- The oldest fifty pending events.
abbrev pub pending_events : Db → List OutboxEvent
pending_events db = take 50 (select is_pending db.outbox_events)

-- `String(value ?? other)`
abbrev headers_of : OutboxEvent → Headers
headers_of event = record {
  order_id = or_else event.payload.order_id event.aggregate_id;
  customer_id = or_else event.payload.customer_id "";
  idempotency_key = or_else event.payload.idempotency_key "";
  correlation_id = or_else event.payload.correlation_id "";
  request_id = or_else event.payload.request_id "";
  trace_id = or_else event.payload.trace_id "";
}

-- The payload as its consumer reads it: a field that is absent reads as the empty text.
abbrev pub content_of : OutboxPayload → BillingMessage
content_of payload = record {
  order_id = or_else payload.order_id "";
  customer_id = or_else payload.customer_id "";
  idempotency_key = or_else payload.idempotency_key "";
  attempt = none;
  correlation_id = payload.correlation_id;
  request_id = payload.request_id;
  trace_id = payload.trace_id;
}

abbrev pub message_for : OutboxEvent → Message
message_for event = record {
  message_id = some event.id;
  headers = headers_of event;
  content = some (content_of event.payload);
}

abbrev pub mark_published : OutboxEvent → OutboxEvent
mark_published event = record event { status = OutboxStatus.published }

abbrev pub mark_failed : String → OutboxEvent → OutboxEvent
mark_failed message event = record event {
  status = OutboxStatus.failed;
  attempts = event.attempts + 1;
  last_error = some message;
}

-- `outboxEvent.update` at an id that was read before; events are never deleted.
abbrev pub update_event : String → (OutboxEvent → OutboxEvent) → Action Db (Unit {0})
update_event id change =
    modify
      (λ db. record db { outbox_events = update_many (λ e. e.id == id) change db.outbox_events })

abbrev pub catch : {A : Type 0} → Action Plant A → (Error → Action Plant A) → Action Plant A
catch m handler s = let (r, s') = m s in elim r [ ok a ↦ (ok a, s') | err e ↦ handler e s' ]

-- One round of the loop.
unfoldable pub publish_event : OutboxEvent → Action Plant (Unit {0})
publish_event event =
    catch
      (queue (publish "orders" "billing" (message_for event))
        >> statement (update_event event.id mark_published))
      (λ e. statement (update_event event.id (mark_failed (message_of e))))

unfoldable pub publish_events : List OutboxEvent → Action Plant (Unit {0})
unfolding publish_event
publish_events [] = pure tt
publish_events (event ∷ events) = publish_event event >> publish_events events

unfoldable pub publish_pending : Action Plant (Unit {0})
publish_pending = do
  queue ensure_topology
  events ← statement (gets pending_events)
  publish_events events

-- `flushPendingOutbox`: an error is logged, and the next beat tries again.
unfoldable pub flush_pending_outbox : Bool → Plant → Plant
flush_pending_outbox false s = s
flush_pending_outbox true s = (publish_pending s).1
