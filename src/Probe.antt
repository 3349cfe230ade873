-- ===== src/Probe.antt =====
-- internal/probe: the three operations of SoroProbe.
pub mod Exec
pub mod Report
pub mod Prober
pub mod LedgerTime
pub mod Plan
pub mod Extend
pub mod Inspect
pub mod Cost
pub mod Spread
pub mod Simulate
pub mod Cache
pub mod Check
pub mod Batch
pub mod Ready
