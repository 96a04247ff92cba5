-- ===== src/AsyncMap.antt =====
-- Values that are awaited by their key: moirae/core/lib/classes/async-map.class.ts.
mod Defs
pub mod Live
pub mod Wake
pub mod History
unfoldable pub use Defs.{construct, size, has, lookup, set, delete, wait_get, time_out, resume}
pub use Defs.{AsyncMap, Waiter}
