-- ===== src/Main.antt =====
-- The main process's helpers: electron/main/userStore.ts, dbcBrowse.ts and enginePaths.ts, over the
-- host's files and paths.
pub mod Host
pub mod UserStore
pub mod SaveLoad
pub mod Browse
pub mod Launch
pub mod Plan
mod Samples
mod Tests
