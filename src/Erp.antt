-- ===== src/Erp.antt =====
-- apps/fake-erp: the simulated ERP with its HTTP endpoints.
pub mod Service
pub mod Clients
pub mod CatalogData
