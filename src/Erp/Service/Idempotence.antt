-- ===== src/Erp/Service/Idempotence.antt =====
-- A repeated call of `billOrder` of apps/fake-erp/src/erp/erp.service.ts.
use casecellshop.Base.{String, ◌≡◌, false, eq_refl, arith, contains}
use casecellshop.Base.Assoc.{lookup-insert}
use casecellshop.Action.{ok}
use casecellshop.Erp.Service.{Erp, BillingReceipt, bill_order, new_receipt}

-- A receipt that the ERP has given for a key is the receipt of every later call with that key, for any
-- order whose billing is not made to fail, and such a call changes nothing.
pub bill_order_again :
    (order later key : String) (erp : Erp) {r : BillingReceipt}
    → (bill_order order key erp).0 ≡ ok r
    → contains later erp.fail_billing_for ≡ false
    → bill_order later key (bill_order order key erp).1 ≡ (ok r, (bill_order order key erp).1)
unfolding bill_order
bill_order_again order later key erp e up =
    ground (arith, lookup-insert key key (new_receipt order erp) erp.billing_by_key, eq_refl key)
