-- ===== src/Bus.antt =====
-- The command bus of moirae/core/lib/busses/command.bus.ts over moirae/core/lib/classes/base.bus.ts.
mod Defs
pub mod Rollback
pub mod Events
pub mod Reaction
pub mod Execute
pub mod Queries
pub mod Answer
unfoldable pub use Defs.{
  base_execute_local, defaulted, publish, publish_all, execute_local, fail_command, run_local,
}
pub use Defs.{CommandBus, Scene}
