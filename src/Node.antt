-- ===== src/Node.antt =====
-- The plugin for applications without Nest: moirae/node-plugin/lib.
pub mod Container
pub mod Plugin
pub mod Equivalence
