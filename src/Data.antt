-- ===== src/Data.antt =====
-- services/quant-domain/src/quant_domain/data_import.py: from the rows of a file to a snapshot of
-- a market. The Arrow readers and the parsing of a text as a date or as a number are libraries'.
pub mod Decimal
pub mod Exact
pub mod Ordered
pub mod Rows
pub mod Bars
pub mod Accepted
pub mod Atoms
pub mod Snapshot
pub mod Sessions
pub mod Sorted
pub mod Tests
