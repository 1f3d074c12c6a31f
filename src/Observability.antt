-- ===== src/Observability.antt =====
-- libs/observability: counters, and the context that a request carries.
pub mod Metrics
pub mod Context
pub mod Trace
pub mod Http
