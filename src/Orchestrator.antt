-- ===== src/Orchestrator.antt =====
-- The package orchestrator: orchestrator/*.go.
pub mod Fork
pub mod Network
pub mod Lifecycle
pub mod Shutdown
pub mod Describe
mod Tests
pub mod TestData
