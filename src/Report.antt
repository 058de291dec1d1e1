-- ===== src/Report.antt =====
-- services/quant-domain/src/quant_domain/run_report.py: the values that a report derives from the
-- engine's result, and their reconciliation with the metrics that the engine publishes.
pub mod Input
pub mod Summary
pub mod Definitions
pub mod Build
pub mod Rates
pub mod Drawdown
pub mod Positions
pub mod Certified
pub mod Tests
