-- ===== src/Aggregate.antt =====
-- moirae/core/lib/classes/aggregate-root.class.ts.
mod Defs
pub mod Prior
pub mod Rollback
pub mod Commit
pub mod Replay
pub mod History
unfoldable pub use Defs.{
  stamp, construct, apply, apply_all, uncommitted_event_history, commit, set_commit_function,
  make_rollbacks, rollback,
}
pub use Defs.{Class, Aggregate, correlated, checked}
