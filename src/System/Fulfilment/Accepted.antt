-- ===== src/System/Fulfilment/Accepted.antt =====
-- An accepted checkout (apps/api), a flush (apps/outbox-worker) and a delivery (apps/order-worker): the order
-- is billed.
use casecellshop.Base.{
  ℕ, String, Bool, true, false, ◌≡◌, refl, sym, ap, ◌∙◌, inl, inr, Option, none, some, List, [],
  ◌∷◌, ◌++◌, find, select, take, update_many, or_else, contains, concat, arith, ◌==◌, eq_refl,
  Bool-cases,
}
use casecellshop.Base.Assoc.{lookup, lookup-insert}
use casecellshop.Action.{ok}
use casecellshop.Store.{Db, Order, OrderStatus, OutboxEvent}
use casecellshop.World.{World}
use casecellshop.Observability.Metrics.{Metrics, record_erp_request}
use casecellshop.Erp.Service.{Erp, new_receipt, get_billing_status}
use casecellshop.Queue.Broker.{Message}
use casecellshop.Plant.{Plant}
use casecellshop.Outbox.Publisher.{
  is_pending, pending_events, message_for, content_of, flush_pending_outbox,
}
use casecellshop.Billing.Consumer.{
  has_id, is_billed, mark_billed, billing_key, consume, with_headers,
}
use casecellshop.Billing.Consumer.Exhaustion.{steady}
use casecellshop.Checkout.Request.{
  Platform, CheckoutRequest, CheckoutResult, text_of, normalize_request,
}
use casecellshop.Checkout.Steps.{new_order, response_of}
use casecellshop.Checkout.Service.{checkout}
use casecellshop.Checkout.Service.Outcome.{checkout-Ends}
use casecellshop.Checkout.Service.Repeat.{find-append}
use casecellshop.System.Fulfilment.{marked, billed_db, billed_erp, flush-sends, consume-bills}

select-append {ℓ} :
    {A : Type ℓ} (test : A → Bool) (xs : List A) (x : A)
    → select test xs ≡ []
    → test x ≡ true
    → select test (xs ++ x ∷ []) ≡ x ∷ []
select-append test [] x nothing chosen = rw chosen refl
select-append test (y ∷ ys) x nothing chosen = elim (Bool-cases (test y)) [
  | inl hit ↦ cc (rw hit at nothing)
  | inr missed ↦ rw missed (select-append test ys x (rw missed at nothing) chosen)
]

pub find-updated :
    (id : String) (change : Order → Order) (rows : List Order) (row : Order)
    → ((r : Order) → (change r).id ≡ r.id)
    → find (has_id id) rows ≡ some row
    → find (has_id id) (update_many (has_id id) change rows) ≡ some (change row)
find-updated id change [] row keeps found = cc
find-updated id change (r ∷ rows) row keeps found = elim (Bool-cases (r.id == id)) [
  | inl same ↦
      let first : r ≡ row = cc (rw same at found) in
      let still : ((change r).id == id) ≡ true = rw (keeps r) same in
      rw (same, still) (ap (λ x. some (change x)) first)
  | inr other ↦ rw (other, other) (find-updated id change rows row keeps (rw other at found))
]

-- A database with one pending event, that of an open order, and workers at which nothing fails.
module _ (event : OutboxEvent) (order : Order) (db : Db) (erp : Erp) (metrics : Metrics)
    (bound : Bool) (retry dlq : List Message) where
  abbrev pub shipped : Plant
  shipped = consume (flush_pending_outbox true (steady db erp metrics bound [] retry dlq))

  shipped-is :
      pending_events db ≡ event ∷ []
      → event.payload.order_id ≡ some order.id
      → find (has_id order.id) db.orders ≡ some order
      → is_billed order ≡ false
      → contains order.id erp.fail_billing_for ≡ false
      → lookup (billing_key order.id) erp.billing_by_key ≡ none
      → shipped
        ≡ steady
            (billed_db order.id order erp (marked event db erp metrics bound [] retry dlq))
            (billed_erp order erp)
            (record_erp_request "billing" "success" metrics)
            true
            []
            retry
            dlq
  shipped-is one about found open_ accepting new =
      let message = with_headers (message_for event).headers (content_of event.payload) in
      let named : message.order_id ≡ order.id = ap (λ o. or_else o "") about in
      ap consume (flush-sends event db erp metrics bound [] retry dlq one)
      ∙ consume-bills message order (marked event db erp metrics bound [] retry dlq) erp metrics
          true [] retry dlq event refl (ap (λ id. find (has_id id) db.orders) named ∙ found)
          (sym named) open_ accepting new

-- The order is billed with the invoice that the ERP has for it, and the queues are as they were, but for the
-- billing queue, which is empty.
pub record IsFulfilled (r : CheckoutResult) (retry dlq : List Message) (s : Plant) : Type 0 where
  pub order : Order
  pub is_found : find (has_id r.body.order_id) s.db.orders ≡ some order
  pub is_billed_now : order.status ≡ OrderStatus.billed
  pub has_total : order.total_cents ≡ r.body.total_cents
  pub has_invoice : order.erp_invoice_id ≡ some (concat ("inv-" ∷ r.body.order_id ∷ []))
  pub is_known :
      (time : ℕ) × (get_billing_status r.body.order_id s.erp
        ≡ some (record { invoice_id = concat ("inv-" ∷ r.body.order_id ∷ []); billed_at = time }))
  pub billing_empty : s.broker.billing ≡ []
  pub retry_kept : s.broker.retry ≡ retry
  pub dlq_kept : s.broker.dlq ≡ dlq

shipped-IsFulfilled :
    (order : Order) (db : Db) (erp : Erp) (metrics : Metrics) (retry dlq : List Message)
    (r : CheckoutResult) (s : Plant)
    → response_of order ≡ r.body
    → find (has_id order.id) db.orders ≡ some order
    → s ≡ steady (billed_db order.id order erp db) (billed_erp order erp) metrics true [] retry dlq
    → IsFulfilled r retry dlq s
unfolding get_billing_status
shipped-IsFulfilled order db erp metrics retry dlq r s answered found is =
    let invoice = some (new_receipt order.id erp).invoice_id in
    let named : r.body.order_id ≡ order.id = ap (λ b. b.order_id) (sym answered) in
    record {
      order = mark_billed invoice order;
      is_found =
          (λ i. find (has_id (named i)) (is i).db.orders)
          ∙ find-updated order.id (mark_billed invoice) db.orders order (λ o. refl) found;
      is_billed_now = refl;
      has_total = ap (λ b. b.total_cents) answered;
      has_invoice = ap (λ id. some (concat ("inv-" ∷ id ∷ []))) (sym named);
      is_known = (
        erp.clock,
        (λ i. lookup (named i) (is i).erp.billing_by_order_id)
            ∙ lookup-insert order.id order.id (new_receipt order.id erp) erp.billing_by_order_id
            ∙ rw (eq_refl order.id) refl
            ∙ (λ i. some (record {
              invoice_id = concat ("inv-" ∷ sym named i ∷ []);
              billed_at = erp.clock;
            })),
      );
      billing_empty = ap (λ (t : Plant). t.broker.billing) is;
      retry_kept = ap (λ (t : Plant). t.broker.retry) is;
      dlq_kept = ap (λ (t : Plant). t.broker.dlq) is;
    }

module _ (p : Platform) (tracer : Option (ℕ → String)) (customer key : Option String)
    (body : CheckoutRequest) (w : World) (r : CheckoutResult) (erp : Erp) (metrics : Metrics)
    (bound : Bool) (retry dlq : List Message) where
  -- A checkout that answers 202, from a database with no pending event in which no order has the id that is
  -- handed out next; then, from an empty billing queue, while nothing fails and the ERP neither refuses the
  -- order nor knows its key, a flush of the outbox and one delivery: the order is found by the id of the
  -- answer, billed, with the total of the answer and the invoice that the ERP has for it, and the billing
  -- queue is empty again.
  pub checkout-IsFulfilled :
      (checkout p tracer customer key body w).0 ≡ ok r
      → r.http_status ≡ 202
      → select is_pending w.db.outbox_events ≡ []
      → find (has_id (p.cuid w.db.next_id)) w.db.orders ≡ none
      → contains r.body.order_id erp.fail_billing_for ≡ false
      → lookup (billing_key r.body.order_id) erp.billing_by_key ≡ none
      → let db = (checkout p tracer customer key body w).1.db in
        IsFulfilled r retry dlq
          (consume (flush_pending_outbox true (steady db erp metrics bound [] retry dlq)))
  checkout-IsFulfilled done is_202 idle fresh accepting new =
      let hash = p.request_hash (normalize_request p body) in
      let ends = rw done at (checkout-Ends p tracer customer key body w) in
      elim ends [
        | inl s ↦ let clash : ⊥ = omega (arith, s.is_200, is_202) in absurd clash
        | inr s ↦
            let db : Db = (checkout p tracer customer key body w).1.db in
            let order : Order = new_order p (text_of customer) (text_of key) s.rows w.db in
            let event : OutboxEvent = s.records.event in
            let (pending, _, _, about, _, _, _) = s.records.is_event in
            let answered : response_of order ≡ r.body =
              ap (λ (x : CheckoutResult). x.body) (sym s.records.is_result) in
            let named : order.id ≡ r.body.order_id = ap (λ b. b.order_id) answered in
            let found : find (has_id order.id) db.orders ≡ some order =
              ap (λ (d : Db). find (has_id order.id) d.orders) s.records.is_after
              ∙ find-append (has_id order.id) w.db.orders order fresh (eq_refl order.id) in
            let one : pending_events db ≡ event ∷ [] =
              ap pending_events s.records.is_after
              ∙ ap (take 50)
                  (select-append is_pending w.db.outbox_events event idle (rw pending refl)) in
            shipped-IsFulfilled order (marked event db erp metrics bound [] retry dlq) erp
              (record_erp_request "billing" "success" metrics) retry dlq r _ answered found
              (shipped-is event order db erp metrics bound retry dlq one about found refl
                (ap (λ id. contains id erp.fail_billing_for) named ∙ accepting)
                (ap (λ id. lookup (billing_key id) erp.billing_by_key) named ∙ new))
      ]
