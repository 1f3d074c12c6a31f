-- ===== src/System/Consistency.antt =====
-- Billed orders and the ERP's invoices, over the turns of all the services.
use casecellshop.Base.{
  String, Bool, true, false, refl, ap, Option, List, [], ◌∷◌, All, All-append, inl, inr, Bool-cases,
  contains,
}
use casecellshop.Action.{Action, Error, Result, ok, err, ◌>>=◌, ◌>>◌, Result-cases, gets}
use casecellshop.Store.{Db, OutboxEvent}
use casecellshop.Plant.{Plant, statement, queue, message_of}
use casecellshop.Erp.Service.{Erp, enable_billing_failure}
use casecellshop.Queue.Broker.{ensure_topology, publish}
use casecellshop.Outbox.Publisher.{
  publish_event, publish_events, publish_pending, flush_pending_outbox, update_event,
  mark_published, mark_failed, message_for, pending_events, catch,
}
use casecellshop.Billing.Consumer.Invoices.{IsConsistent, IsInvoiced}
use casecellshop.Billing.Consumer.Consistency.{
  Ends, Nothing, bind-Ends, frame, pure-Ends, statement-Ends, queue-Ends, consume-IsConsistent,
}
use casecellshop.Reconciliation.Orders.Consistency.{reconcile_orders-IsConsistent}
use casecellshop.Checkout.Request.{Platform, CheckoutRequest, CheckoutResult}
use casecellshop.Checkout.Service.Outcome.{CheckoutSucceeds, CheckoutEnds, checkout-Ends}
use casecellshop.System.{
  Step, Steps, checked_out, flushed, consumed, expired, reconciled, erp_failing, erp_mended, struck,
  here, after,
}

catch-Ends :
    (m : Action Plant (Unit {0})) (handler : Error → Action Plant (Unit {0})) (s : Plant)
    → Ends Nothing (m s)
    → ((e : Error) (s' : Plant) → IsConsistent s' → Ends Nothing (handler e s'))
    → Ends Nothing (catch m handler s)
catch-Ends m handler s a each = elim (Result-cases (m s).0) [
  | inl (e, failed) ↦ rw (failed, catch) (each e (m s).1 a.keeps)
  | inr (u, done) ↦ rw (done, catch) (record { keeps = a.keeps; gives = λ x h. tt })
]

publish_event-Ends :
    (event : OutboxEvent) (s : Plant) → IsConsistent s → Ends Nothing (publish_event event s)
unfolding publish_event
publish_event-Ends event s v =
    catch-Ends
      (queue (publish "orders" "billing" (message_for event))
        >> statement (update_event event.id mark_published))
      (λ e. statement (update_event event.id (mark_failed (message_of e)))) s
      (bind-Ends {mid = Nothing} (queue (publish "orders" "billing" (message_for event)))
        (λ u. statement (update_event event.id mark_published)) s
        (queue-Ends (publish "orders" "billing" (message_for event)) s v)
        (λ u s' v' n. statement-Ends (update_event event.id mark_published) s' v'.orders v'))
      (λ e s' v'.
        statement-Ends (update_event event.id (mark_failed (message_of e))) s' v'.orders v')

publish_events-Ends :
    (events : List OutboxEvent) (s : Plant)
    → IsConsistent s
    → Ends Nothing (publish_events events s)
unfolding publish_events
publish_events-Ends [] s v = pure-Ends tt s v
publish_events-Ends (event ∷ events) s v =
    bind-Ends {mid = Nothing} (publish_event event) (λ u. publish_events events) s
      (publish_event-Ends event s v) (λ u s' v' n. publish_events-Ends events s' v')

publish_pending-Ends : (s : Plant) → IsConsistent s → Ends Nothing (publish_pending s)
unfolding publish_pending
publish_pending-Ends s v =
    bind-Ends {mid = Nothing} (queue ensure_topology)
      (λ u. statement (gets pending_events) >>= publish_events) s (queue-Ends ensure_topology s v)
      (λ u s' v' n.
        bind-Ends {mid = Nothing} (statement (gets pending_events)) publish_events s'
          (statement-Ends (gets pending_events) s' v'.orders v')
          (λ events s'' v'' m. publish_events-Ends events s'' v''))

flush-IsConsistent :
    (enabled : Bool) (s : Plant) → IsConsistent s → IsConsistent (flush_pending_outbox enabled s)
unfolding flush_pending_outbox
flush-IsConsistent false s v = v
flush-IsConsistent true s v = (publish_pending-Ends s v).keeps

succeeded-AllInvoiced :
    (p : Platform) (customer key : Option String) (body : CheckoutRequest) (erp : Erp) (db db' : Db)
    (r : CheckoutResult)
    → CheckoutSucceeds p customer key body db db' r
    → All (IsInvoiced erp) db.orders
    → All (IsInvoiced erp) db'.orders
succeeded-AllInvoiced p customer key body erp db db' r (inl replays) a = rw replays.is_unchanged a
succeeded-AllInvoiced p customer key body erp db db' r (inr accepted) a =
    let e = ap (λ (x : Db). x.orders) accepted.records.is_after in
    rw e (All-append (IsInvoiced erp) db.orders (_ ∷ []) a ((λ pending. cc), tt))

ended-AllInvoiced :
    (p : Platform) (customer key : Option String) (body : CheckoutRequest) (erp : Erp) (db db' : Db)
    (r : Result CheckoutResult)
    → CheckoutEnds p customer key body db r db'
    → All (IsInvoiced erp) db.orders
    → All (IsInvoiced erp) db'.orders
ended-AllInvoiced p customer key body erp db db' (err e) (inl same) a = rw same a
ended-AllInvoiced p customer key body erp db db' (err e) (inr (fails, is, (r, ends))) a =
    succeeded-AllInvoiced p customer key body erp db db' r ends a
ended-AllInvoiced p customer key body erp db db' (ok r) ends a =
    succeeded-AllInvoiced p customer key body erp db db' r ends a

enable-IsConsistent :
    (id : String) (s : Plant)
    → IsConsistent s
    → IsConsistent (record s { erp = enable_billing_failure id s.erp })
enable-IsConsistent id s v = elim (Bool-cases (contains id s.erp.fail_billing_for)) [
  | inl there ↦ rw there v
  | inr new ↦ rw new (record { keys = v.keys; orders = v.orders })
]

-- A turn of any service keeps every billed order with its invoice.
Step-IsConsistent : (p : Platform) (s t : Plant) → Step p s t → IsConsistent s → IsConsistent t
Step-IsConsistent p _ _ (checked_out fails tracer customer key body w s) v =
    frame (record s { db = w.db }) _ refl
      (ended-AllInvoiced (record p { version_fails = fails }) customer key body s.erp w.db _ _
        (checkout-Ends (record p { version_fails = fails }) tracer customer key body w) v.orders)
      v
Step-IsConsistent p _ _ (flushed enabled s) v = flush-IsConsistent enabled s v
Step-IsConsistent p _ _ (consumed s) v = consume-IsConsistent s v
Step-IsConsistent p _ _ (expired s) v = frame s _ refl v.orders v
Step-IsConsistent p _ _ (reconciled s) v = reconcile_orders-IsConsistent s v
Step-IsConsistent p _ _ (erp_failing order s) v = enable-IsConsistent order s v
Step-IsConsistent p _ _ (erp_mended order s) v = record { keys = v.keys; orders = v.orders }
Step-IsConsistent p _ _ (struck d b l n s) v = frame s _ refl v.orders v

-- From a state in which every billed order has the invoice that the ERP holds for it, and the ERP holds the
-- same receipt under each order's billing key and under the order, no sequence of
-- checkouts, flushes, deliveries, retries, reconciliations and failures of the ERP, the database, the
-- broker and the network leads to one in which this fails: no billed order comes to have none, or another one.
pub Steps-IsConsistent :
    (p : Platform) (s t : Plant) → Steps p s t → IsConsistent s → IsConsistent t
Steps-IsConsistent p s _ (here _) v = v
Steps-IsConsistent p s _ (after {t = t} {u = u} before step) v =
    Step-IsConsistent p t u step (Steps-IsConsistent p s t before v)
