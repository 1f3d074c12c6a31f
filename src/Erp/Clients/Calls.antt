-- ===== src/Erp/Clients/Calls.antt =====
-- What a call of the ERP's clients changes, and what its answer says.
use casecellshop.Base.{String, ◌≡◌, ◌⊎◌, inl, inr, arith, Option, some, Option-cases}
use casecellshop.Base.Assoc.{lookup}
use casecellshop.Action.{Result, ok, Result-cases}
use casecellshop.Erp.Service.{BillingReceipt, ReceiptJson, bill_order, status_response}
use casecellshop.Plant.{Plant, fetch}
use casecellshop.Erp.Clients.{request_billing, request_status}

-- The ERP has handled the call or never got it; a receipt that comes back is the ERP's.
pub record Calls (order key : String) (s s' : Plant) (r : Result ReceiptJson) : Type 0 where
  pub db : s'.db ≡ s.db
  pub broker : s'.broker ≡ s.broker
  pub db_faults : s'.db_faults ≡ s.db_faults
  pub erp : (s'.erp ≡ s.erp) ⊎ (s'.erp ≡ (bill_order order key s.erp).1)
  pub receipt :
      (x : ReceiptJson)
      → r ≡ ok x
      → (b : BillingReceipt) × ((bill_order order key s.erp).0 ≡ ok b)
        × (x.invoice_id ≡ some b.invoice_id)
        × (s'.erp ≡ (bill_order order key s.erp).1)

-- Whatever the network does, a billing request changes in the ERP nothing, or what the handling of this
-- order under this key changes; and an invoice that comes back is that of the receipt the ERP answered with.
pub request_billing-Calls :
    (order key : String) (s : Plant)
    → let (r, s') = request_billing order key s in Calls order key s s' r
unfolding request_billing fetch
request_billing-Calls order key s = record {
  db = ground arith;
  broker = ground arith;
  db_faults = ground arith;
  erp = ground arith;
  receipt = λ x h. elim (Result-cases (bill_order order key s.erp).0) [
    | inl (e, refused) ↦ absurd (ground arith)
    | inr (b, billed) ↦ (b, billed, ground arith, ground arith)
  ];
}

-- A status query changes nothing but the counters; an invoice that it finds is the order's.
pub record Asks (order : String) (s s' : Plant) (r : Result (Option String)) : Type 0 where
  pub db : s'.db ≡ s.db
  pub broker : s'.broker ≡ s.broker
  pub db_faults : s'.db_faults ≡ s.db_faults
  pub erp : s'.erp ≡ s.erp
  pub invoice :
      (x : String)
      → r ≡ ok (some x)
      → (b : BillingReceipt) × (lookup order s.erp.billing_by_order_id ≡ some b)
        × (b.invoice_id ≡ x)

pub request_status-Asks :
    (order : String) (s : Plant) → let (r, s') = request_status order s in Asks order s s' r
unfolding request_status fetch status_response
request_status-Asks order s = record {
  db = ground arith;
  broker = ground arith;
  db_faults = ground arith;
  erp = ground arith;
  invoice = λ x h. elim (Option-cases (lookup order s.erp.billing_by_order_id)) [
    | inl none_yet ↦ absurd (ground arith)
    | inr (b, has) ↦ (b, has, ground arith)
  ];
}
