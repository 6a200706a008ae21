-- ===== src/Commands.antt =====
-- The commands of cli/commands and cli/init.
pub mod Keys
pub mod Status
pub mod EthContracts
pub mod NearContracts
mod Tests
