-- ===== src/Store.antt =====
-- The tables that a telemetry sample touches, and the effects of the services on them.
pub mod Rows
pub mod Effects
pub mod Frames
pub mod Endings
