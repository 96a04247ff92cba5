-- ===== src/Publisher.antt =====
-- The publishers of moirae/core.
mod Defs
pub mod Order
pub mod Drain
pub mod History
pub mod Stall
pub mod Responses
unfoldable pub use Defs.{
  is_idle, bootstrap, advance_bus, publish, routed, acknowledge_event, handle_response, settle,
  reject, subscribe, listen, shutdown,
}
pub use Defs.{EsState, not_ready, preparing, idle, active, shutting_down, Publisher, Response, Wire}
