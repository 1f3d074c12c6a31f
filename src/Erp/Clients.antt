-- ===== src/Erp/Clients.antt =====
-- The HTTP clients of the ERP: apps/order-worker/src/erp.client.ts and
-- apps/reconciliation-worker/src/erp-catalog.client.ts.
pub mod Calls
use casecellshop.Base.{
  String, Option, none, some, List, [], ◌∷◌, concat, decimal, if◌then◌else◌, eqb, ◌==◌,
}
use casecellshop.Action.{Error, other, Result, ok, err, Action, pure, throw, ◌>>=◌}
use casecellshop.Erp.Service.{
  Erp, ErpCatalogProduct, ReceiptJson, BillingStatus, Response, is_ok, bill_order, billing_response,
  status_response,
}
use casecellshop.Observability.Metrics.{Metrics, record_erp_request, record_erp_error}
use casecellshop.Plant.{Plant, fetch}

-- The `finally` block of each call: the request is counted with its outcome, an error once more.
abbrev counted : {A : Type 0} → String → (A → String) → Result A → Metrics → Metrics
counted operation outcome (ok a) m = record_erp_request operation (outcome a) m
counted operation outcome (err e) m =
    record_erp_error operation (record_erp_request operation "error" m)

abbrev pub measure : {A : Type 0} → String → (A → String) → Action Plant A → Action Plant A
measure operation outcome call s =
    let (r, s') = call s in (r, record s' { metrics = counted operation outcome r s'.metrics })

abbrev failed : {A : Type 0} → String → Response A → Error
failed what r = other (concat (what ∷ ": " ∷ decimal r.status ∷ " " ∷ r.status_text ∷ []))

-- `throw` unless `response.ok`, then `response.json()`, which throws where there is no body.
abbrev json : {A : Type 0} → String → Response A → Action Plant A
json what r =
    if is_ok r
    then (elim r.body [ none ↦ throw (other "json") | some a ↦ pure a ])
    else throw (failed what r)

abbrev succeeded : {A : Type 0} → A → String
succeeded a = "success"

abbrev billing_endpoint : String → String → Erp → Response ReceiptJson × Erp
billing_endpoint order key erp =
    let (r, erp') = bill_order order key erp in (billing_response r, erp')

-- `ErpBillingClient.billOrder`
unfoldable pub request_billing : String → String → Action Plant ReceiptJson
request_billing order key =
    measure "billing" succeeded
      (do response ← fetch (billing_endpoint order key); json "ERP billing request failed" response)

-- `invoiceId` is falsy where it is null or empty.
abbrev pub billed_invoice : BillingStatus → Option String
billed_invoice payload = elim payload.invoice_id [
  | none ↦ none
  | some id ↦ if id == "" then none else some id
]

abbrev found_outcome : Option String → String
found_outcome none = "not_found"
found_outcome (some id) = "success"

abbrev status_json : Response BillingStatus → Action Plant (Option String)
status_json r =
    if eqb r.status 404
    then pure none
    else (do payload ← json "ERP billing status request failed" r; pure (billed_invoice payload))

-- `getBillingStatus`, as the invoice that the answer carries, if any.
unfoldable pub request_status : String → Action Plant (Option String)
request_status order =
    measure "billing_status" found_outcome
      (do response ← fetch (λ erp. (status_response order erp, erp)); status_json response)

abbrev catalog_response : Erp → Response (List ErpCatalogProduct)
catalog_response erp = record { status = 200; status_text = "OK"; body = some erp.catalog }

-- `ErpCatalogClient.getProducts`
unfoldable pub request_products : Action Plant (List ErpCatalogProduct)
request_products = measure "catalog" succeeded (do
  response ← fetch (λ erp. (catalog_response erp, erp))
  json "ERP catalog request failed" response)
