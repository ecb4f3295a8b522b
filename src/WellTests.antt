-- ===== src/WellTests.antt =====
-- The lifecycle of a well test: apps/backend/src/well-tests, over the `well_tests` table of
-- apps/backend/prisma/migrations/20260530000000_f4_7_well_tests.
pub mod Contracts
pub mod Table
pub mod Service
pub mod Reads
pub mod Requests
pub mod Lifecycle
mod Tests
