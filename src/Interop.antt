-- ===== src/Interop.antt =====
-- The package interop: interop/*.go.
pub mod Types
pub mod Message
pub mod Store
pub mod Indexer
pub mod Relayer
pub mod Pipeline
pub mod Applier
pub mod TestData
mod Tests
