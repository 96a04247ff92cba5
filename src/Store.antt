-- ===== src/Store.antt =====
-- The in-memory event store of moirae/core/lib/stores/memory.store.ts, and what loads aggregates from a
-- store and commits them to it, moirae/core/lib/factories/aggregate.factory.ts.
mod Defs
pub mod Streams
pub mod Loading
pub mod RoundTrip
unfoldable pub use Defs.{
  bootstrap, append_event, append_to_stream, read_from_stream, commit_events, loaded, merge_context,
  save,
}
pub use Defs.{MemoryStore, events_of}
