-- ===== src/Registry.antt =====
-- The tables of constructors and domains, and what goes over the wire by them.
pub mod Storage
pub mod Processor
pub mod Wrapper
pub mod Decorators
pub mod Mixin
