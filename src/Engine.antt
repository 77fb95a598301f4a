-- ===== src/Engine.antt =====
-- The values that cross the process boundary: shared/engine.ts.
pub mod Value
pub mod Types
pub mod Parse
