-- ===== src/Billing/Consumer/Consistency.antt =====
-- Billed orders and the ERP's invoices, over the handling of one message by
-- apps/order-worker/src/billing.consumer.ts.
use casecellshop.Base.{
  ◌+◌, String, ◌≡◌, refl, some, List, [], ◌∷◌, All, arith, inl, inr, Bool-cases, Option-cases, find,
  is_some, if◌then◌else◌, update_many, leb,
}
use casecellshop.Action.{Error, Result, ok, Action, pure, throw, ◌>>=◌, ◌>>◌, Result-cases}
use casecellshop.Base.Assoc.{lookup}
use casecellshop.Store.{Db, Order, IntegrationAttempt}
use casecellshop.Plant.{Plant, statement, queue, next_fault}
use casecellshop.Erp.Service.{BillingReceipt}
use casecellshop.Erp.Clients.{request_billing}
use casecellshop.Erp.Clients.Calls.{request_billing-Calls}
use casecellshop.Queue.Broker.{BillingMessage, Broker, Message, publish_to_retry, publish_to_dlq}
use casecellshop.Billing.Consumer.{
  process_message, handle_failure, process_with_retry, handle_message, consume, consume_first,
  find_order, update_order, has_id, mark_billed, mark_erp_failed, billing_key, create_attempt,
  is_billed, failed_attempt, max_attempts, attempt_of, resend, with_headers,
}
use casecellshop.Billing.Consumer.Invoices.{
  IsConsistent, IsInvoiced, Calls-IsConsistent, Calls-holds, mark_billed-AllInvoiced,
  mark_erp_failed-AllInvoiced,
}

-- The run leaves a consistent state, in which a result that it gives has the property.
pub record Ends {A : Type 0} (post : A → Plant → Type 0) (out : Result A × Plant) : Type 0 where
  pub keeps : IsConsistent out.1
  pub gives : (x : A) → out.0 ≡ ok x → post x out.1

abbrev pub Nothing : {A : Type 0} → A → Plant → Type 0
Nothing x s = Unit {0}

pub bind-Ends :
    {A B : Type 0} {mid : A → Plant → Type 0} {post : B → Plant → Type 0} (m : Action Plant A)
    (k : A → Action Plant B) (s : Plant)
    → Ends mid (m s)
    → ((x : A) (s' : Plant) → IsConsistent s' → mid x s' → Ends post (k x s'))
    → Ends post ((m >>= k) s)
bind-Ends m k s a next = elim (Result-cases (m s).0) [
  | inl (x, e) ↦ rw (e, ◌>>=◌) (record { keeps = a.keeps; gives = λ y h. absurd (ground arith) })
  | inr (x, e) ↦ rw (e, ◌>>=◌) (next x (m s).1 a.keeps (a.gives x e))
]

-- A run that keeps the ERP and whose rows are still invoiced.
pub frame :
    (s s' : Plant)
    → s'.erp ≡ s.erp
    → All (IsInvoiced s.erp) s'.db.orders
    → IsConsistent s
    → IsConsistent s'
frame s s' same rows v = record { keys = rw same v.keys; orders = rw same rows }

pub pure-Ends : {A : Type 0} (x : A) (s : Plant) → IsConsistent s → Ends Nothing (pure x s)
pure-Ends x s v = record { keeps = v; gives = λ y h. tt }

throw-Ends :
    {A : Type 0} (e : Error) (s : Plant) → IsConsistent s → Ends {A = A} Nothing (throw e s)
throw-Ends e s v = record { keeps = v; gives = λ y h. tt }

pub statement-Ends :
    {A : Type 0} (run : Action Db A) (s : Plant)
    → All (IsInvoiced s.erp) (run s.db).1.orders
    → IsConsistent s
    → Ends Nothing (statement run s)
unfolding statement
statement-Ends run s rows v = elim (Bool-cases (next_fault s.db_faults)) [
  | inl fails ↦ rw fails (record { keeps = frame s _ refl v.orders v; gives = λ x h. tt })
  | inr runs ↦ rw runs (record { keeps = frame s _ refl rows v; gives = λ x h. tt })
]

pub queue-Ends :
    {A : Type 0} (call : Action Broker A) (s : Plant) → IsConsistent s → Ends Nothing (queue call s)
queue-Ends call s v = record { keeps = frame s (queue call s).1 refl v.orders v; gives = λ x h. tt }

find_order-orders : (id : String) (db : Db) → (find_order id db).1.orders ≡ db.orders
find_order-orders id db = ground arith

create_attempt-orders :
    (a : IntegrationAttempt) (db : Db) → (create_attempt a db).1.orders ≡ db.orders
create_attempt-orders a db = ground arith

update_order-AllInvoiced :
    (P : Order → Type 0) (id : String) (change : Order → Order) (db : Db)
    → All P db.orders
    → All P (update_many (has_id id) change db.orders)
    → All P (update_order id change db).1.orders
update_order-AllInvoiced P id change db before after =
    elim (Bool-cases (is_some (find (has_id id) db.orders))) [
      | inl there ↦ rw there after
      | inr missing ↦ rw missing before
    ]

pub mark_billed-Ends :
    (id : String) (r : BillingReceipt) (s : Plant)
    → lookup id s.erp.billing_by_order_id ≡ some r
    → IsConsistent s
    → Ends Nothing (statement (update_order id (mark_billed (some r.invoice_id))) s)
mark_billed-Ends id r s has v =
    statement-Ends (update_order id (mark_billed (some r.invoice_id))) s
      (update_order-AllInvoiced (IsInvoiced s.erp) id _ s.db v.orders
        (mark_billed-AllInvoiced s.erp id r s.db.orders has v.orders))
      v

request_billing-Ends :
    (id : String) (s : Plant)
    → IsConsistent s
    → Ends
        (λ r s'.
          (b : BillingReceipt) × (lookup id s'.erp.billing_by_order_id ≡ some b)
          × (r.invoice_id ≡ some b.invoice_id))
        (request_billing id (billing_key id) s)
request_billing-Ends id s v =
    let c = request_billing-Calls id (billing_key id) s in
    record { keeps = Calls-IsConsistent id s _ _ c v; gives = λ r e. Calls-holds id s _ _ r c v e }

abbrev bill : Order → Action Plant (Unit {0})
bill order = do
  invoice ← request_billing order.id (billing_key order.id)
  statement (update_order order.id (mark_billed invoice.invoice_id))

bill_found-Ends :
    (order : Order) (s : Plant)
    → IsConsistent s
    → Ends Nothing ((if is_billed order then pure tt else bill order) s)
bill_found-Ends order s v = elim (Bool-cases (is_billed order)) [
  | inl done ↦ rw done (pure-Ends tt s v)
  | inr unbilled ↦ rw unbilled (
      bind-Ends (request_billing order.id (billing_key order.id))
        (λ r. statement (update_order order.id (mark_billed r.invoice_id))) s
        (request_billing-Ends order.id s v)
        (λ r s' v' (b, has, named). rw named (mark_billed-Ends order.id b s' has v')))
]

process_message-Ends :
    (message : BillingMessage) (s : Plant)
    → IsConsistent s
    → Ends Nothing (process_message message s)
unfolding process_message
process_message-Ends message s v =
    bind-Ends {mid = Nothing} (statement (find_order message.order_id))
      (λ order. if is_billed order then pure tt else bill order) s
      (statement-Ends (find_order message.order_id) s
        (rw (find_order-orders message.order_id s.db) v.orders) v)
      (λ order s' v' u. bill_found-Ends order s' v')

abbrev move_to_dlq : BillingMessage → Action Plant (Unit {0})
move_to_dlq message = do
  statement (update_order message.order_id mark_erp_failed)
  queue (publish_to_dlq (resend (attempt_of message) message))

abbrev retry_or_dlq : BillingMessage → Action Plant (Unit {0})
retry_or_dlq message =
    if leb max_attempts (attempt_of message)
    then move_to_dlq message
    else queue (publish_to_retry (resend (attempt_of message + 1) message))

retry_or_dlq-Ends :
    (message : BillingMessage) (s : Plant) → IsConsistent s → Ends Nothing (retry_or_dlq message s)
retry_or_dlq-Ends message s v = elim (Bool-cases (leb max_attempts (attempt_of message))) [
  | inl last ↦ rw last (
      bind-Ends {mid = Nothing} (statement (update_order message.order_id mark_erp_failed)) _ s
        (statement-Ends (update_order message.order_id mark_erp_failed) s
          (update_order-AllInvoiced (IsInvoiced s.erp) message.order_id mark_erp_failed s.db
            v.orders (mark_erp_failed-AllInvoiced s.erp message.order_id s.db.orders v.orders))
          v)
        (λ w s' v' m. queue-Ends (publish_to_dlq (resend (attempt_of message) message)) s' v'))
  | inr retry ↦
      rw retry (queue-Ends (publish_to_retry (resend (attempt_of message + 1) message)) s v)
]

handle_failure-Ends :
    (message : BillingMessage) (e : Error) (s : Plant)
    → IsConsistent s
    → Ends Nothing (handle_failure message e s)
unfolding handle_failure
handle_failure-Ends message e s v =
    bind-Ends {mid = Nothing} (statement (create_attempt (failed_attempt message e)))
      (λ u. retry_or_dlq message >> throw e) s
      (statement-Ends (create_attempt (failed_attempt message e)) s
        (rw (create_attempt-orders (failed_attempt message e) s.db) v.orders) v)
      (λ u s' v' n.
        bind-Ends {mid = Nothing} (retry_or_dlq message) (λ w. throw e) s'
          (retry_or_dlq-Ends message s' v') (λ w s'' v'' m. throw-Ends e s'' v''))

process_with_retry-IsConsistent :
    (message : BillingMessage) (s : Plant)
    → IsConsistent s
    → IsConsistent (process_with_retry message s).1
unfolding process_with_retry
process_with_retry-IsConsistent message s v =
    let after = process_message-Ends message s v in
    elim (Result-cases (process_message message s).0) [
      | inl (e, failed) ↦
          rw (failed, process_with_retry)
            ((handle_failure-Ends message e (process_message message s).1 after.keeps).keeps)
      | inr (u, done) ↦ rw (done, process_with_retry) after.keeps
    ]

handle_message-IsConsistent :
    (m : Message) (s : Plant) → IsConsistent s → IsConsistent (handle_message m s)
unfolding handle_message
handle_message-IsConsistent m s v = elim (Option-cases m.content) [
  | inl nothing ↦ rw (nothing, handle_message) v
  | inr (message, has) ↦
      rw (has, handle_message)
        (process_with_retry-IsConsistent (with_headers m.headers message) s v)
]

consume_first-IsConsistent :
    (ms : List Message) (s : Plant) → IsConsistent s → IsConsistent (consume_first ms s)
consume_first-IsConsistent [] s v = v
consume_first-IsConsistent (m ∷ ms) s v =
    handle_message-IsConsistent m (record s { broker = record s.broker { billing = ms } })
      (frame s _ refl v.orders v)

-- However the database, the network, the broker and the ERP fail, the handling of the billing queue's oldest
-- message leaves every billed order with the invoice that the ERP holds for it, and the ERP with the same
-- receipt under each order's billing key and under the order, where both held before.
pub consume-IsConsistent : (s : Plant) → IsConsistent s → IsConsistent (consume s)
unfolding consume
consume-IsConsistent s v = consume_first-IsConsistent s.broker.billing s v
