-- ===== src/Demo.antt =====
-- The demo application: demo, in particular its accounts.
pub mod Integers
pub mod Account
pub mod Handlers
pub mod Undo
pub mod Inventory
pub mod Names
pub mod Projection
pub mod ReadSide
pub mod OrderRows
pub mod Commands
pub mod OrderSaga
pub mod Decorated
pub mod WebSocket
pub mod Controllers
pub mod Shelf
pub mod Committed
pub mod Creation
pub mod Kept
pub mod Failed
pub mod Refused
pub mod Alike
pub mod Repeated
