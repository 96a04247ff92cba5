-- ===== src/Wiring.antt =====
-- How an application is put together: moirae/core/lib/moirae.module.ts, the injectors of the plugins, and
-- the configuration of the demo application.
pub mod Defs
pub mod Injectors
pub mod Root
pub mod Environment
pub mod Engine
pub mod Choice
