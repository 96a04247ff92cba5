-- ===== src/Observable/Distributor.antt =====
-- moirae/core/lib/classes/distributor.class.ts. The emitter is shared by all distributors; the uuids
-- that `randomUUID` gives are arguments.
mod Defs
pub mod Delivery
unfoldable pub use Defs.{channel, listener_count, clear, subscribe, publish, unsubscribe}
pub use Defs.{Distributor}
