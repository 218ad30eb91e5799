-- ===== src/Config.antt =====
-- The package config: config/*.go.
pub mod Types
pub mod Default
pub mod Flags
pub mod Registry
pub mod Host
pub mod Check
pub mod TestData
mod Tests
