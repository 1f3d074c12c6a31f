-- ===== src/Billing/Consumer/Exhaustion.antt =====
-- A message whose billing always fails: four deliveries through `processWithRetry` of
-- apps/order-worker/src/billing.consumer.ts.
pub mod Rounds
use casecellshop.Base.{
  update_many, length, All-append, All-weaken, ℕ, zero, suc, ◌+◌, ◌<◌, ◌≤◌, String, Bool, true,
  false, ◌≡◌, concat, decimal, refl, sym, ap, ◌∙◌, ◌⊎◌, inl, inr, Option, none, some, List, [], ◌∷◌,
  ◌++◌, find, is_some, if◌then◌else◌, contains, arith, All, eqb, leb, ◌==◌,
}
use casecellshop.Action.{Error, other, Result, ok, err, Action, pure, throw, ◌>>=◌, ◌>>◌}
use casecellshop.Action.Laws.{bind-runs, bind-stops}
use casecellshop.Store.{Db, Order, IntegrationAttempt}
use casecellshop.Erp.Service.{Erp, bill_order}
use casecellshop.Erp.Clients.{request_billing}
use casecellshop.Queue.Broker.{
  BillingMessage, Message, Broker, publish_to_dlq, publish_to_retry, ensure_topology, get_channel,
  expire_retry,
}
use casecellshop.Observability.Metrics.{Metrics, record_erp_error, record_erp_request}
use casecellshop.Plant.{Plant, queue, statement, fetch}
use casecellshop.Billing.Consumer.{
  find_order, billing_key, mark_billed, has_id, is_billed, process_message, process_with_retry,
  handle_failure, handle_message, consume, attempt_of, failed_attempt, mark_erp_failed, resend,
  with_headers, same_attempt, create_attempt, update_order,
}

-- The workers' state while nothing but the ERP fails.
abbrev pub steady : Db → Erp → Metrics → Bool → List Message → List Message → List Message → Plant
steady db erp metrics bound billing retry dlq = record {
  db = db;
  broker = record {
    bound = bound;
    billing = billing;
    retry = retry;
    dlq = dlq;
    faults = [];
    losses = [];
  };
  erp = erp;
  metrics = metrics;
  db_faults = [];
  network = [];
}

abbrev pub refused : Error
refused =
    other (
      concat ("ERP billing request failed" ∷ ": " ∷ decimal 503 ∷ " " ∷ "Service Unavailable" ∷ []))

abbrev pub counted_refusal : Metrics → Metrics
counted_refusal m = record_erp_error "billing" (record_erp_request "billing" "error" m)

module _ (message : BillingMessage) (order : Order) (db : Db) (erp : Erp) (metrics : Metrics)
    (bound : Bool) (billing retry dlq : List Message) where
  abbrev pub here : Plant
  here = steady db erp metrics bound billing retry dlq

  pub found_order :
      (id : String)
      → find (has_id id) db.orders ≡ some order
      → statement (find_order id) here ≡ (ok order, here)
  unfolding statement
  found_order id found = rw found refl

  request_billing_fails :
      (key : String)
      → contains order.id erp.fail_billing_for ≡ true
      → request_billing order.id key here
        ≡ (err refused, steady db erp (counted_refusal metrics) bound billing retry dlq)
  unfolding request_billing fetch bill_order
  request_billing_fails key refusing = rw refusing refl

  pub process_message_fails :
      find (has_id message.order_id) db.orders ≡ some order
      → is_billed order ≡ false
      → contains order.id erp.fail_billing_for ≡ true
      → process_message message here
        ≡ (err refused, steady db erp (counted_refusal metrics) bound billing retry dlq)
  unfolding process_message
  process_message_fails found open_ refusing =
      let bill : Order → Action Plant (Unit {0}) = λ o.
        request_billing o.id (billing_key o.id) >>= λ invoice.
        statement (update_order o.id (mark_billed invoice.invoice_id)) in
      let next : Order → Action Plant (Unit {0}) = λ o. if is_billed o then pure tt else bill o in
      bind-runs (statement (find_order message.order_id)) next here
        (found_order message.order_id found)
      ∙ ap (λ t. (if t then pure tt else bill order) here) open_
      ∙ bind-stops (request_billing order.id (billing_key order.id))
          (λ invoice. statement (update_order order.id (mark_billed invoice.invoice_id))) here
          (request_billing_fails (billing_key order.id) refusing)

  -- The three statements and calls of the `catch` block.
  attempt_created :
      (a : IntegrationAttempt)
      → find (has_id a.order_id) db.orders ≡ some order
      → find (same_attempt a) db.attempts ≡ none
      → statement (create_attempt a) here ≡ (
        ok tt,
        steady (record db { attempts = db.attempts ++ a ∷ [] }) erp metrics bound billing retry dlq,
      )
  unfolding statement
  attempt_created a found fresh = rw found (rw fresh refl)

  pub order_updated :
      (id : String) (change : Order → Order)
      → find (has_id id) db.orders ≡ some order
      → statement (update_order id change) here ≡ (
        ok tt,
        steady
            (record db { orders = update_many (has_id id) change db.orders })
            erp
            metrics
            bound
            billing
            retry
            dlq,
      )
  unfolding statement
  order_updated id change found = rw found refl

  sent_to_retry :
      (m : Message)
      → queue (publish_to_retry m) here
        ≡ (ok tt, steady db erp metrics true billing (retry ++ m ∷ []) dlq)
  unfolding publish_to_retry ensure_topology get_channel
  sent_to_retry m = refl

  sent_to_dlq :
      (m : Message)
      → queue (publish_to_dlq m) here
        ≡ (ok tt, steady db erp metrics true billing retry (dlq ++ m ∷ []))
  unfolding publish_to_dlq ensure_topology get_channel
  sent_to_dlq m = refl

module _ (message : BillingMessage) (order : Order) (db : Db) (erp : Erp) (metrics : Metrics)
    (bound : Bool) (billing retry dlq : List Message) (e : Error)
    (found : find (has_id message.order_id) db.orders ≡ some order)
    (fresh : find (same_attempt (failed_attempt message e)) db.attempts ≡ none) where
  abbrev pub attempted : Db
  attempted = record db { attempts = db.attempts ++ failed_attempt message e ∷ [] }

  abbrev pub dead : Db
  dead = record attempted {
    orders = update_many (has_id message.order_id) mark_erp_failed db.orders;
  }

  abbrev follow : Bool → Action Plant (Unit {0})
  follow last =
      (if last
        then statement (update_order message.order_id mark_erp_failed)
          >> queue (publish_to_dlq (resend (attempt_of message) message))
        else queue (publish_to_retry (resend (attempt_of message + 1) message)))
      >> throw e

  follows :
      (last : Bool)
      → leb 4 (attempt_of message) ≡ last
      → handle_failure message e (steady db erp metrics bound billing retry dlq)
        ≡ follow last (steady attempted erp metrics bound billing retry dlq)
  unfolding handle_failure
  follows last is =
      let s = steady db erp metrics bound billing retry dlq in
      bind-runs (statement (create_attempt (failed_attempt message e)))
        (λ u. follow (leb 4 (attempt_of message))) s
        (attempt_created message order db erp metrics bound billing retry dlq
          (failed_attempt message e) found fresh)
      ∙ ap (λ t. follow t (steady attempted erp metrics bound billing retry dlq)) is

  pub handle_failure_retries :
      leb 4 (attempt_of message) ≡ false
      → handle_failure message e (steady db erp metrics bound billing retry dlq) ≡ (
        err e,
        steady attempted erp metrics true billing
            (retry ++ resend (attempt_of message + 1) message ∷ [])
            dlq,
      )
  handle_failure_retries early =
      follows false early
      ∙ bind-runs (queue (publish_to_retry (resend (attempt_of message + 1) message)))
          (λ u. throw e) (steady attempted erp metrics bound billing retry dlq)
          (sent_to_retry message order attempted erp metrics bound billing retry dlq
            (resend (attempt_of message + 1) message))

  pub handle_failure_gives_up :
      leb 4 (attempt_of message) ≡ true
      → handle_failure message e (steady db erp metrics bound billing retry dlq) ≡ (
        err e,
        steady dead erp metrics true billing retry
            (dlq ++ resend (attempt_of message) message ∷ []),
      )
  handle_failure_gives_up late =
      let m = resend (attempt_of message) message in
      let mark = statement (update_order message.order_id mark_erp_failed) in
      let s = steady attempted erp metrics bound billing retry dlq in
      follows true late
      ∙ bind-runs (mark >> queue (publish_to_dlq m)) (λ u. throw e) s
          (bind-runs mark (λ u. queue (publish_to_dlq m)) s
              (order_updated message order attempted erp metrics bound billing retry dlq
                message.order_id mark_erp_failed found)
            ∙ sent_to_dlq message order dead erp metrics bound billing retry dlq m)
