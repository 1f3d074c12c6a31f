-- ===== src/Tests.antt =====
-- Runs of the model on small inputs.
pub mod Samples
pub mod Checkouts
pub mod Workers
pub mod Catalogue
pub mod Requests
