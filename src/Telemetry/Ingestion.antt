-- ===== src/Telemetry/Ingestion.antt =====
-- apps/backend/src/telemetry/ingestion: the single write path into `telemetry_readings`.
pub mod Contracts
pub mod Readings
pub mod Quarantine
pub mod Resolution
pub mod Storing
pub mod Service
pub mod Frames
pub mod Outcomes
pub mod Sections
pub mod Commit
pub mod Sample
pub mod Batch
pub mod Returns
pub mod Dedup
