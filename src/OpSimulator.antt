-- ===== src/OpSimulator.antt =====
-- The package opsimulator: opsimulator/*.go.
pub mod Check
pub mod Json
pub mod Handler
pub mod Deposits
pub mod DepositTask
pub mod Server
pub mod Loggers
mod Tests
