-- ===== src/Operation.antt =====
-- Operations on resources (internal/core/operations.go with internal/database/queries/operations.sql):
-- the rows, what the database and the configuration answer, and the effects of a transaction.
pub mod Tables
pub mod World
pub mod Outcome
pub mod Life
pub mod Review
pub mod Deletion
pub mod Request
pub mod Worker
pub mod Dispatch
pub mod Settle
pub mod Tick
