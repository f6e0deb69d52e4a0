-- ===== src/Scan.antt =====
-- internal/scan: the engine that walks target directories and produces measurements.
pub mod ErrClass
pub mod Target
pub mod Walk
pub mod Pool
pub mod Latch
pub mod Worker
pub mod Engine
pub mod Cycles
pub mod Summary
pub mod Launch
