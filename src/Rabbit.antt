-- ===== src/Rabbit.antt =====
-- The RabbitMQ plugin: moirae/rabbitmq/lib.
pub mod Connection
pub mod Channel
pub mod Publisher
pub mod Bootstrap
pub mod Delivery
pub mod Routing
pub mod PubSub
