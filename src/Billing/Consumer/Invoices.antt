-- ===== src/Billing/Consumer/Invoices.antt =====
-- Billed orders and the ERP's invoices: what it means that they agree, and the writes of
-- apps/order-worker/src/billing.consumer.ts to an order.
use casecellshop.Base.{
  String, ◌≡◌, refl, some, ◌==◌, eq_iff, eq_refl, arith, List, [], ◌∷◌, update_many, All,
  Bool-cases, inl, inr,
}
use text.Mathlib.TextLemmas.{append_cancel_left, append_cancel_right}
use casecellshop.Base.Assoc.{lookup, lookup-insert}
use casecellshop.Store.{Order, billed}
use casecellshop.Erp.Service.{Erp, BillingReceipt, ReceiptJson, bill_order, new_receipt}
use casecellshop.Billing.Consumer.{billing_key, has_id, mark_billed, mark_erp_failed}
use casecellshop.Action.{Result, ok}
use casecellshop.Erp.Clients.Calls.{Calls}
use casecellshop.Plant.{Plant}

-- The ERP holds the same receipt under an order's billing key and under the order.
abbrev pub KeysAgree : Erp → Type 0
KeysAgree erp =
    (id : String) → lookup (billing_key id) erp.billing_by_key ≡ lookup id erp.billing_by_order_id

billing_key_inj : (a b : String) → billing_key a ≡ billing_key b → a ≡ b
billing_key_inj a b e = append_cancel_right a b _ (append_cancel_left "order:" _ _ e)

key_eq : (a b : String) → (billing_key a == billing_key b) ≡ (a == b)
key_eq a b = elim (Bool-cases (a == b)) [
  | inl same ↦ rw ((eq_iff a b).0 same, eq_refl (billing_key b), eq_refl b)
  | inr other ↦ elim (Bool-cases (billing_key a == billing_key b)) [
    | inl same ↦ rw (billing_key_inj a b ((eq_iff _ _).0 same), eq_refl (billing_key b), eq_refl b)
    | inr differ ↦ rw (other, differ)
  ]
]

bill_order-KeysAgree :
    (id : String) (erp : Erp) → KeysAgree erp → KeysAgree (bill_order id (billing_key id) erp).1
unfolding bill_order
bill_order-KeysAgree id erp h other = ground (
  arith,
  h other,
  lookup-insert (billing_key id) (billing_key other) (new_receipt id erp) erp.billing_by_key,
  lookup-insert id other (new_receipt id erp) erp.billing_by_order_id,
  key_eq id other,
)

-- The order is billed only with the ERP's invoice.
abbrev pub IsInvoiced : Erp → Order → Type 0
IsInvoiced erp order =
    order.status ≡ billed
    → (r : BillingReceipt) × (lookup order.id erp.billing_by_order_id ≡ some r)
      × (order.erp_invoice_id ≡ some r.invoice_id)

-- Receipts are never taken back.
abbrev pub Grows : Erp → Erp → Type 0
Grows erp erp' =
    (id : String) (r : BillingReceipt)
    → lookup id erp.billing_by_order_id ≡ some r
    → lookup id erp'.billing_by_order_id ≡ some r

bill_order-Grows :
    (id : String) (erp : Erp) → KeysAgree erp → Grows erp (bill_order id (billing_key id) erp).1
unfolding bill_order
bill_order-Grows id erp h other r has = ground (
  arith,
  h id,
  h other,
  lookup-insert id other (new_receipt id erp) erp.billing_by_order_id,
  eq_iff id other,
)

-- A receipt that the ERP answers with is the order's.
bill_order-holds :
    (id : String) (erp : Erp) (r : BillingReceipt)
    → KeysAgree erp
    → (bill_order id (billing_key id) erp).0 ≡ ok r
    → lookup id (bill_order id (billing_key id) erp).1.billing_by_order_id ≡ some r
unfolding bill_order
bill_order-holds id erp r h e =
    ground
      (arith, h id, lookup-insert id id (new_receipt id erp) erp.billing_by_order_id, eq_refl id)

AllInvoiced-Grows :
    (erp erp' : Erp) (orders : List Order)
    → Grows erp erp'
    → All (IsInvoiced erp) orders
    → All (IsInvoiced erp') orders
AllInvoiced-Grows erp erp' [] g a = tt
AllInvoiced-Grows erp erp' (o ∷ os) g (i, a) =
    (λ e. let (r, has, same) = i e in (r, g o.id r has, same), AllInvoiced-Grows erp erp' os g a)

pub mark_billed-AllInvoiced :
    (erp : Erp) (id : String) (r : BillingReceipt) (orders : List Order)
    → lookup id erp.billing_by_order_id ≡ some r
    → All (IsInvoiced erp) orders
    → All (IsInvoiced erp) (update_many (has_id id) (mark_billed (some r.invoice_id)) orders)
mark_billed-AllInvoiced erp id r [] has a = tt
mark_billed-AllInvoiced erp id r (o ∷ os) has (i, a) =
    let rest = mark_billed-AllInvoiced erp id r os has a in
    elim (Bool-cases (o.id == id)) [
      | inl same ↦ rw same ((λ e. (r, rw ((eq_iff o.id id).0 same) has, refl)), rest)
      | inr other ↦ rw other (i, rest)
    ]

pub mark_erp_failed-AllInvoiced :
    (erp : Erp) (id : String) (orders : List Order)
    → All (IsInvoiced erp) orders
    → All (IsInvoiced erp) (update_many (has_id id) mark_erp_failed orders)
mark_erp_failed-AllInvoiced erp id [] a = tt
mark_erp_failed-AllInvoiced erp id (o ∷ os) (i, a) =
    let rest = mark_erp_failed-AllInvoiced erp id os a in
    elim (Bool-cases (o.id == id)) [
      | inl same ↦ rw same ((λ e. cc), rest)
      | inr other ↦ rw other (i, rest)
    ]

-- The shop and the ERP agree: every billed order has the invoice that the ERP issued for it.
pub record IsConsistent (s : Plant) : Type 0 where
  pub keys : KeysAgree s.erp
  pub orders : All (IsInvoiced s.erp) s.db.orders

-- A run that keeps the orders, and of the ERP changes nothing or lets it bill one.
pub Calls-IsConsistent :
    (id : String) (s s' : Plant) (r : Result ReceiptJson)
    → Calls id (billing_key id) s s' r
    → IsConsistent s
    → IsConsistent s'
Calls-IsConsistent id s s' r c v = elim c.erp [
  | inl same ↦ record { keys = rw same v.keys; orders = rw (c.db, same) v.orders }
  | inr handled ↦ record {
    keys = rw handled (bill_order-KeysAgree id s.erp v.keys);
    orders =
        rw (c.db, handled)
          (AllInvoiced-Grows s.erp (bill_order id (billing_key id) s.erp).1 s.db.orders
            (bill_order-Grows id s.erp v.keys) v.orders);
  }
]

pub Calls-holds :
    (id : String) (s s' : Plant) (r : Result ReceiptJson) (x : ReceiptJson)
    → Calls id (billing_key id) s s' r
    → IsConsistent s
    → r ≡ ok x
    → (b : BillingReceipt) × (lookup id s'.erp.billing_by_order_id ≡ some b)
      × (x.invoice_id ≡ some b.invoice_id)
Calls-holds id s s' r x c v e =
    let (b, is, named, after) = c.receipt x e in
    (b, rw after (bill_order-holds id s.erp b v.keys is), named)
