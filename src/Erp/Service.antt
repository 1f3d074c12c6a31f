-- ===== src/Erp/Service.antt =====
-- apps/fake-erp/src/erp/erp.service.ts and its two controllers.
pub mod Idempotence
use casecellshop.Base.{
  ℕ, String, Bool, Option, none, some, List, [], ◌∷◌, concat, contains, if◌then◌else◌, length, not,
  ◌&&◌, leb, ltb, select, ◌==◌,
}
use casecellshop.Base.Assoc.{lookup, insert}
use casecellshop.Action.{service_unavailable, Result, ok, err, Action}

-- prisma/catalog-data.ts
pub record ErpCatalogCompatibility : Type 0 where
  pub brand : String
  pub model : String
  pub slug : String

pub record ErpCatalogProduct : Type 0 where
  pub id : String
  pub sku : String
  pub name : String
  pub description : String
  pub image_url : String
  pub brand : String
  pub active : Bool
  pub price_cents : ℕ
  pub erp_qty : ℕ
  pub compatibilities : List ErpCatalogCompatibility

-- `billedAt` is the time of the clock, as a number.
pub record BillingReceipt : Type 0 where
  pub invoice_id : String
  pub billed_at : ℕ

-- The fields of `ErpService`, and the clock that `new Date()` reads.
pub record Erp : Type 0 where
  pub catalog : List ErpCatalogProduct
  pub fail_billing_for : List String
  pub billing_by_key : List (String × BillingReceipt)
  pub billing_by_order_id : List (String × BillingReceipt)
  pub clock : ℕ

abbrev pub set_catalog : List ErpCatalogProduct → Erp → ℕ × Erp
set_catalog products erp = (length products, record erp { catalog = products })

abbrev pub enable_billing_failure : String → Erp → Erp
enable_billing_failure order erp =
    if contains order erp.fail_billing_for
    then erp
    else record erp { fail_billing_for = order ∷ erp.fail_billing_for }

abbrev pub clear_billing_failure : String → Erp → Erp
clear_billing_failure order erp = record erp {
  fail_billing_for = select (λ s. not (s == order)) erp.fail_billing_for;
}

abbrev pub new_receipt : String → Erp → BillingReceipt
new_receipt order erp = record { invoice_id = concat ("inv-" ∷ order ∷ []); billed_at = erp.clock }

unfoldable pub bill_order : String → String → Action Erp BillingReceipt
bill_order order key erp =
    if contains order erp.fail_billing_for
    then (err (service_unavailable "Simulated ERP billing failure"), erp)
    else elim (lookup key erp.billing_by_key) [
      | some existing ↦ (ok existing, erp)
      | none ↦ (
        ok (new_receipt order erp),
        record erp {
          billing_by_key = insert key (new_receipt order erp) erp.billing_by_key;
          billing_by_order_id = insert order (new_receipt order erp) erp.billing_by_order_id;
        },
      )
    ]

unfoldable pub get_billing_status : String → Erp → Option BillingReceipt
get_billing_status order erp = lookup order erp.billing_by_order_id

-- An HTTP response: its status and its JSON body, if any.
pub record Response (A : Type 0) : Type 0 where
  pub status : ℕ
  pub status_text : String
  pub body : Option A

-- `response.ok`
abbrev pub is_ok : {A : Type 0} → Response A → Bool
is_ok r = leb 200 r.status && ltb r.status 300

-- The JSON body of `POST /erp/billing`, as `BillingReceipt` of apps/order-worker/src/erp.client.ts reads it: the
-- one with which Nest answers an exception has no `invoiceId`.
pub record ReceiptJson : Type 0 where
  pub invoice_id : Option String

-- `POST /erp/billing`
abbrev pub billing_response : Result BillingReceipt → Response ReceiptJson
billing_response (ok receipt) = record {
  status = 201;
  status_text = "Created";
  body = some (record { invoice_id = some receipt.invoice_id });
}
billing_response (err e) = record {
  status = 503;
  status_text = "Service Unavailable";
  body = some (record { invoice_id = none });
}

-- The body of `GET /erp/billing/:orderId`; `invoiceId` is null where nothing is billed.
pub record BillingStatus : Type 0 where
  pub order_id : String
  pub invoice_id : Option String
  pub billed_at : Option ℕ

abbrev billing_status : String → Option BillingReceipt → BillingStatus
billing_status order none = record { order_id = order; invoice_id = none; billed_at = none }
billing_status order (some billing) = record {
  order_id = order;
  invoice_id = some billing.invoice_id;
  billed_at = some billing.billed_at;
}

unfoldable pub status_response : String → Erp → Response BillingStatus
unfolding get_billing_status
status_response order erp = record {
  status = 200;
  status_text = "OK";
  body = some (billing_status order (get_billing_status order erp));
}
