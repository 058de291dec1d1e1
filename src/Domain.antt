-- ===== src/Domain.antt =====
-- services/quant-domain/src/quant_domain/domain.py: the durable domain service over its SQLite
-- tables. `Table` has the SQL statements, `Outcome` the exceptions and transactions.
pub mod Table
pub mod Outcome
pub mod Journal
pub mod Database
pub mod Sessions
pub mod Attachments
pub mod Messages
pub mod Submit
pub mod RevisionTables
pub mod Revisions
pub mod Revise
pub mod JobTables
pub mod Jobs
pub mod RunTables
pub mod Lifecycle
pub mod Verification
pub mod Samples
pub mod Tests
