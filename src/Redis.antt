-- ===== src/Redis.antt =====
-- The Redis plugin: moirae/redis/lib/caches/redis.cache.ts and providers/redis.connection.ts.
pub mod Client
pub mod Cache
pub mod Contract
pub mod Connection
