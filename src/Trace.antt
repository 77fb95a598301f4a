-- ===== src/Trace.antt =====
-- The Trace view: shared/traceRing.ts, traceControl.ts, traceFilter.ts, tracePaint.ts and the state
-- of electron/renderer/src/trace/useTraceModel.ts.
pub mod Ring
pub mod Format
pub mod Decimal
pub mod Filter
pub mod Paint
pub mod Model
mod Tests
