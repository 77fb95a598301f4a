-- ===== src/Bridge.antt =====
-- electron/main/ipc-bridge.ts: the checks of what the renderer sends, on its way to the engine.
pub mod Types
pub mod Requests
pub mod Sound
pub mod Options
pub mod RoundTrip
pub mod Handlers
pub mod Safety
mod Tests
