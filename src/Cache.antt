-- ===== src/Cache.antt =====
-- moirae/core/lib/classes/base.cache.ts and the contract of its sets, cache.interface.ts.
pub mod Reserve
pub mod Memory
mod Defs
unfoldable pub use Defs.{add_to_set, remove_from_set, read_from_set, get_key, set_key}
pub use Defs.{Handles, Json, SetLaws, KeyLaws}
