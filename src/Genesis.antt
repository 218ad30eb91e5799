-- ===== src/Genesis.antt =====
-- The package genesis: the generator of the embedded files, genesis/worldgen.
pub mod DevKeys
pub mod Deployment
pub mod World
pub mod Periphery
pub mod CliConfig
pub mod Command
