-- ===== src/Reconciliation/Orders/Counts.antt =====
-- The two counts that the order reconciliation reports.
use casecellshop.Base.{
  ◌+◌, String, Bool, ◌≡◌, refl, ap, some, none, true, false, Option, List, [], ◌∷◌, All, inl, inr,
  Bool-cases, select, arith, count, not, ◌∙◌, is_some, Option-cases, if◌then◌else◌, ◌==◌,
}
use casecellshop.Base.Assoc.{lookup}
use casecellshop.Erp.Service.{Erp, status_response, get_billing_status}
use casecellshop.Erp.Clients.Calls.{request_status-Asks}
use casecellshop.Action.{Result, ok, Action, pure, gets, modify, ◌>>=◌, ◌>>◌}
use casecellshop.Action.Laws.{bind-eq-ok}
use casecellshop.Store.{Db, Order, OrderStatus}
use casecellshop.Plant.{fetch, Plant, statement, next_fault}
use casecellshop.Erp.Clients.{request_status}
use casecellshop.Billing.Consumer.{is_billed, update_order, mark_billed}
use casecellshop.Reconciliation.Orders.{
  is_open, Tally, settle, reconcile_each, report, reconcile_orders,
}

-- Whether the ERP has an invoice for the order, whose id is not empty.
abbrev pub has_invoice : Erp → Order → Bool
has_invoice erp order = elim (lookup order.id erp.billing_by_order_id) [
  | none ↦ false
  | some receipt ↦ not (receipt.invoice_id == "")
]

-- The tally has grown by the orders with an invoice, and by those without.
abbrev pub IsCounted : Erp → List Order → Tally → Tally → Type 0
IsCounted erp orders t t' =
    (t'.repaired ≡ t.repaired + count (has_invoice erp) orders)
    × (t'.divergences ≡ t.divergences + count (λ o. not (has_invoice erp o)) orders)

unbilled_of : (order : Order) → is_open order ≡ true → is_billed order ≡ false
unbilled_of order h =
    elim order.status
        as (λ st.
          (elim st [
            | OrderStatus.pending_erp ↦ true
            | OrderStatus.erp_failed ↦ true
            | OrderStatus.billed ↦ false
          ]
            ≡ true)
          → (elim st [ OrderStatus.billed ↦ true | _ ↦ false ] ≡ false)) [
            | OrderStatus.pending_erp ↦ λ e. refl
            | OrderStatus.erp_failed ↦ λ e. refl
            | OrderStatus.billed ↦ λ e. cc
          ]
      h

statement-erp : {A : Type 0} (run : Action Db A) (s : Plant) → (statement run s).1.erp ≡ s.erp
unfolding statement
statement-erp run s = elim (Bool-cases (next_fault s.db_faults)) [
  | inl fails ↦ rw (fails, statement) refl
  | inr runs ↦ rw (runs, statement) refl
]

request_status-answers :
    (order : Order) (answer : Option String) (s : Plant)
    → (request_status order.id s).0 ≡ ok answer
    → is_some answer ≡ has_invoice s.erp order
unfolding request_status fetch status_response get_billing_status
request_status-answers order answer s e =
    elim (Option-cases (lookup order.id s.erp.billing_by_order_id)) [
      | inl unknown ↦ ground arith
      | inr (receipt, known) ↦ ground arith
    ]

settle-counts :
    (order : Order) (answer : Option String) (t t' : Tally) (s : Plant)
    → is_open order ≡ true
    → (settle order answer t s).0 ≡ ok t'
    → (t'.repaired ≡ t.repaired + (if is_some answer then 1 else 0))
      × ((t'.divergences ≡ t.divergences + (if is_some answer then 0 else 1))
          × ((settle order answer t s).1.erp ≡ s.erp))
unfolding settle
settle-counts order none t t' s h e = (ground arith, (ground arith, refl))
settle-counts order (some invoice) t t' s h e =
    let mark = statement (update_order order.id (mark_billed (some invoice))) in
    let e' = rw (unbilled_of order h, settle) at e in
    let (u, done, rest) =
      bind-eq-ok mark (λ u. pure (record t { repaired = t.repaired + 1 })) s e' in
    (
      ground arith,
      (
        ground arith,
        rw (unbilled_of order h, settle)
            (ap (λ (x : Result Tally × Plant). x.1.erp) rest ∙ statement-erp _ s),
      ),
    )

reconcile_each-counts :
    (orders : List Order) (t t' : Tally) (s : Plant)
    → All (λ o. is_open o ≡ true) orders
    → (reconcile_each orders t s).0 ≡ ok t'
    → IsCounted s.erp orders t t'
unfolding reconcile_each
reconcile_each-counts [] t t' s a e = (ground arith, ground arith)
reconcile_each-counts (order ∷ orders) t t' s (h, a) e =
    let (answer, asked, rest) =
      bind-eq-ok (request_status order.id)
        (λ answer. settle order answer t >>= reconcile_each orders) s e in
    let s1 = (request_status order.id s).1 in
    let e' = rw rest at e in
    let (t1, settled, then_) = bind-eq-ok (settle order answer t) (reconcile_each orders) s1 e' in
    let e'' = rw then_ at e' in
    let known = request_status-answers order answer s asked in
    let (one, (other, same)) = settle-counts order answer t t1 s1 h settled in
    let kept : (settle order answer t s1).1.erp ≡ s.erp =
      same ∙ (request_status-Asks order.id s).erp in
    let (repaired, left) = rw kept at (reconcile_each-counts orders t1 t' _ a e'') in
    let one' = rw known at one in
    let other' = rw known at other in
    elim (Bool-cases (has_invoice s.erp order)) [
      | inl issued ↦
          rw issued
            (omega (arith, repaired, rw issued at one'), omega (arith, left, rw issued at other'))
      | inr missed ↦
          rw missed
            (omega (arith, repaired, rw missed at one'), omega (arith, left, rw missed at other'))
    ]

select-All :
    {A : Type 0} (test : A → Bool) (xs : List A) → All (λ x. test x ≡ true) (select test xs)
select-All test [] = tt
select-All test (x ∷ xs) = elim (Bool-cases (test x)) [
  | inl passes ↦ rw passes (passes, select-All test xs)
  | inr fails ↦ rw fails (select-All test xs)
]

read_lem :
    {A : Type 0} (f : Db → A) (s : Plant) (x : A) → (statement (gets f) s).0 ≡ ok x → x ≡ f s.db
unfolding statement
read_lem f s x e = elim (Bool-cases (next_fault s.db_faults)) [
  | inl fails ↦ cc (rw (fails, statement) at e)
  | inr runs ↦ cc (rw (runs, statement) at e)
]

abbrev rest_of : List Order → Action Plant Tally
rest_of orders = do
  t ← reconcile_each orders (record { repaired = 0; divergences = 0 })
  modify (report t)
  pure t

-- A run of the order reconciliation that ends without an error has counted, of the orders that were pending or
-- failed when it began, as repaired those for which the ERP has an invoice with an id, as divergences the others.
pub reconcile_orders-counts :
    (s : Plant) (t : Tally)
    → (reconcile_orders s).0 ≡ ok t
    → IsCounted s.erp (select is_open s.db.orders) (record { repaired = 0; divergences = 0 }) t
unfolding reconcile_orders
reconcile_orders-counts s t e =
    let read = statement (gets (λ db. select is_open db.orders)) in
    let zero_tally : Tally = record { repaired = 0; divergences = 0 } in
    let (orders, is, rest) = bind-eq-ok read rest_of s e in
    let e' = rw rest at e in
    let (t', each, done) =
      bind-eq-ok (reconcile_each orders zero_tally) (λ t. modify (report t) >> pure t) (read s).1
        e' in
    let same : t' ≡ t = cc (rw done at e') in
    let found = read_lem _ s orders is in
    let counted =
      reconcile_each-counts orders zero_tally t' (read s).1
        (rw found (select-All is_open s.db.orders)) each in
    rw (same, found, statement-erp (gets (λ db. select is_open db.orders)) s) at counted
