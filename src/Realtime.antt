-- ===== src/Realtime.antt =====
-- The realtime fan-out: packages/types/src/realtime.ts and apps/backend/src/realtime.
pub mod Events
pub mod Emitter
pub mod Gateway
mod Tests
