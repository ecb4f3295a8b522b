-- ===== src/Telemetry.antt =====
-- The write path of telemetry and the reads of trends: apps/backend/src/telemetry.
pub mod Projection
pub mod Ingestion
pub mod Resolver
pub mod Trends
pub mod Latest
mod Tests
