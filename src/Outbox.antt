-- ===== src/Outbox.antt =====
-- apps/outbox-worker: accepted orders leave the database for the billing queue.
pub mod Publisher
