-- ===== src/Queue.antt =====
-- libs/queue: the RabbitMQ queues of the billing flow.
pub mod Broker
