-- ===== src/Saga.antt =====
-- Sagas: moirae/core/lib/classes/saga.class.ts and saga-manager.class.ts.
mod Defs
pub mod Keys
pub mod Memory
pub mod Rollback
unfoldable pub use Defs.{
  bootstrap, process, apply_event_to_sagas, rollback_sagas, add_saga, remember, run_steps,
  split_key, before_colon, after_colon, make_command, make_commands,
}
pub use Defs.{Saga, SagaStep, correlation_key, rollback_key, steps_of, printed}
