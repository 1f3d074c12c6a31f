-- ===== src/Reconciliation/Orders.antt =====
-- `reconcileOrders` of apps/reconciliation-worker/src/reconciliation.runner.ts.
pub mod Consistency
pub mod Counts
use casecellshop.Base.{
  ℕ, ◌+◌, String, Bool, true, false, not, Option, none, some, List, [], ◌∷◌, select, ltb,
  if◌then◌else◌,
}
use casecellshop.Action.{Action, pure, gets, modify, ◌>>=◌, ◌>>◌}
use casecellshop.Store.{Order, OrderStatus}
use casecellshop.Observability.Metrics.{record_reconciliation_divergence}
use casecellshop.Erp.Clients.{request_status}
use casecellshop.Plant.{Plant, statement}
use casecellshop.Billing.Consumer.{is_billed, update_order, mark_billed}

-- `status: { in: ['PENDING_ERP', 'ERP_FAILED'] }`
abbrev pub is_open : Order → Bool
is_open order = elim order.status [
  | OrderStatus.pending_erp ↦ true
  | OrderStatus.erp_failed ↦ true
  | OrderStatus.billed ↦ false
]

pub record Tally : Type 0 where
  pub repaired : ℕ
  pub divergences : ℕ

-- One round of the loop, once the ERP has answered with an invoice or with none.
unfoldable pub settle : Order → Option String → Tally → Action Plant Tally
settle order none t = pure (record t { divergences = t.divergences + 1 })
settle order (some invoice) t =
    if not (is_billed order)
    then (do
      statement (update_order order.id (mark_billed (some invoice)))
      pure (record t { repaired = t.repaired + 1 }))
    else pure t

unfoldable pub reconcile_each : List Order → Tally → Action Plant Tally
unfolding settle
reconcile_each [] t = pure t
reconcile_each (order ∷ orders) t = do
  invoice ← request_status order.id
  t' ← settle order invoice t
  reconcile_each orders t'

abbrev pub report : Tally → Plant → Plant
report t s =
    if ltb 0 t.divergences
    then record s { metrics = record_reconciliation_divergence t.divergences s.metrics }
    else s

unfoldable pub reconcile_orders : Action Plant Tally
reconcile_orders = do
  orders ← statement (gets (λ db. select is_open db.orders))
  t ← reconcile_each orders (record { repaired = 0; divergences = 0 })
  modify (report t)
  pure t
