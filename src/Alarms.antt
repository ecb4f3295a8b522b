-- ===== src/Alarms.antt =====
-- The backend's alarms: their evaluation and their reads, apps/backend/src/alarms.
pub mod Evaluation
pub mod Reads
pub mod Bands
pub mod Uniqueness
mod Tests
