-- ===== src/Strategy.antt =====
-- strategies/: the catalog's strategies. Each has a module of its own with its state, `order` and
-- `on_bar`; `Host` is what they share, `Discipline` the contract that they are proved to keep.
pub mod AShareRotation
pub mod Host
pub mod Discipline
pub mod CryptoBreakout
pub mod AShareTrendBreakout
pub mod AShareResearchShort
pub mod CryptoMeanReversion
pub mod CryptoTrend
