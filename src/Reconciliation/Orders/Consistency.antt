-- ===== src/Reconciliation/Orders/Consistency.antt =====
-- Billed orders and the ERP's invoices, over a run of the order reconciliation.
use casecellshop.Base.{
  String, ◌≡◌, refl, sym, some, none, Option, List, [], ◌∷◌, inl, inr, Bool-cases, ◌+◌, select, ltb,
}
use casecellshop.Action.{pure, gets, modify, ◌>>=◌, ◌>>◌}
use casecellshop.Base.Assoc.{lookup}
use casecellshop.Store.{Order}
use casecellshop.Plant.{Plant, statement}
use casecellshop.Erp.Service.{BillingReceipt}
use casecellshop.Erp.Clients.{request_status}
use casecellshop.Erp.Clients.Calls.{request_status-Asks}
use casecellshop.Billing.Consumer.{is_billed, update_order, mark_billed}
use casecellshop.Billing.Consumer.Invoices.{IsConsistent}
use casecellshop.Billing.Consumer.Consistency.{
  Ends, Nothing, bind-Ends, frame, pure-Ends, statement-Ends, mark_billed-Ends,
}
use casecellshop.Reconciliation.Orders.{
  is_open, Tally, settle, reconcile_each, report, reconcile_orders,
}

abbrev HasInvoice : String → Option String → Plant → Type 0
HasInvoice id answer s =
    (x : String)
    → answer ≡ some x
    → (r : BillingReceipt) × (lookup id s.erp.billing_by_order_id ≡ some r) × (r.invoice_id ≡ x)

request_status-Ends :
    (id : String) (s : Plant) → IsConsistent s → Ends (HasInvoice id) (request_status id s)
request_status-Ends id s v =
    let a = request_status-Asks id s in
    record {
      keeps = frame s (request_status id s).1 a.erp (rw a.db v.orders) v;
      gives = λ answer e x has. rw a.erp (a.invoice x (rw (sym has) e));
    }

settle-Ends :
    (order : Order) (answer : Option String) (t : Tally) (s : Plant)
    → HasInvoice order.id answer s
    → IsConsistent s
    → Ends Nothing (settle order answer t s)
unfolding settle
settle-Ends order none t s h v = pure-Ends _ s v
settle-Ends order (some x) t s h v = elim (Bool-cases (is_billed order)) [
  | inl done ↦ rw done (pure-Ends t s v)
  | inr unbilled ↦
      let (r, has, same) = h x refl in
      rw (unbilled, sym same)
        (bind-Ends {mid = Nothing}
          (statement (update_order order.id (mark_billed (some r.invoice_id)))) _ s
          (mark_billed-Ends order.id r s has v)
          (λ u s' v' n. pure-Ends (record t { repaired = t.repaired + 1 }) s' v'))
]

reconcile_each-Ends :
    (orders : List Order) (t : Tally) (s : Plant)
    → IsConsistent s
    → Ends Nothing (reconcile_each orders t s)
unfolding reconcile_each
reconcile_each-Ends [] t s v = pure-Ends t s v
reconcile_each-Ends (order ∷ orders) t s v =
    bind-Ends (request_status order.id)
      (λ answer. settle order answer t >>= λ t'. reconcile_each orders t') s
      (request_status-Ends order.id s v)
      (λ answer s' v' has.
        bind-Ends {mid = Nothing} (settle order answer t) (reconcile_each orders) s'
          (settle-Ends order answer t s' has v')
          (λ t' s'' v'' n. reconcile_each-Ends orders t' s'' v''))

report-IsConsistent : (t : Tally) (s : Plant) → IsConsistent s → IsConsistent (report t s)
report-IsConsistent t s v = elim (Bool-cases (ltb 0 t.divergences)) [
  | inl some_open ↦ rw some_open (frame s _ refl v.orders v)
  | inr none_open ↦ rw none_open v
]

-- However the database, the network and the ERP fail, a run of the order reconciliation leaves every
-- billed order with the invoice that the ERP holds for it, and the ERP with the same receipt under each
-- order's billing key and under the order, where both held before.
pub reconcile_orders-IsConsistent :
    (s : Plant) → IsConsistent s → IsConsistent (reconcile_orders s).1
unfolding reconcile_orders
reconcile_orders-IsConsistent s v =
    let out : Ends Nothing (reconcile_orders s) =
      bind-Ends {mid = Nothing} (statement (gets (λ db. select is_open db.orders))) _ s
        (statement-Ends (gets (λ db. select is_open db.orders)) s v.orders v)
        (λ orders s' v' n.
          bind-Ends {mid = Nothing}
            (reconcile_each orders (record { repaired = 0; divergences = 0 }))
            (λ t. modify (report t) >> pure t) s' (reconcile_each-Ends orders _ s' v')
            (λ t s'' v'' m. pure-Ends t (report t s'') (report-IsConsistent t s'' v''))) in
    out.keeps
