-- ===== src/Formal.antt =====
-- services/quant-domain/src/quant_domain/formal_runner.py: the host that drives a strategy's process
-- bar by bar, its frames, and the gates of a formal run.
pub mod Protocol
pub mod Host
pub mod Frame
pub mod Bounded
pub mod Timing
pub mod Gates
pub mod Verdicts
pub mod Tests
