-- ===== src/Web.antt =====
-- The web application: the live telemetry of apps/web/lib, and apps/web/components/operations.
pub mod Models
pub mod RingBuffer
pub mod TelemetryStore
pub mod Stale
pub mod Evaluator
pub mod Selectors
pub mod AlarmCenter
pub mod AckStore
pub mod Wire
pub mod Adapter
pub mod WellTestWindow
pub mod TrendSeries
pub mod Operations
pub mod LiveSlots
pub mod Runtime
mod Tests
