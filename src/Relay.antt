-- ===== src/Relay.antt =====
-- The services that carry blocks from one chain to the other, and the watchdog.
pub mod Near2Eth
pub mod Eth2Near
pub mod Watchdog
mod Tests
