-- ===== src/Robust.antt =====
-- utils/robust.js: retries, the wrapped web3 calls, and the sending of transactions.
pub mod Backoff
pub mod Calls
pub mod Contract
pub mod Transaction
mod Tests
