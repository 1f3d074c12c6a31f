-- ===== src/Reconciliation.antt =====
-- apps/reconciliation-worker: the catalogue and the orders are brought in line with the ERP.
pub mod Orders
pub mod Catalog
