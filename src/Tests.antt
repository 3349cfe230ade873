-- ===== src/Tests.antt =====
-- The operations at concrete inputs.
mod World
mod Health
mod Scval
mod Probe
mod Batch
mod BatchRun
mod Cost
mod Config
mod Abi
mod Api
mod Simulate
