-- ===== src/Typeorm.antt =====
-- The TypeORM plugin: moirae/typeorm/lib/caches/typeorm.cache.ts and stores/typeorm.store.ts.
pub mod Tables
pub mod Cache
pub mod Store
pub mod Append
