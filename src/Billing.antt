-- ===== src/Billing.antt =====
-- apps/order-worker: the orders that wait for the ERP are billed, retried or given up.
pub mod Consumer
