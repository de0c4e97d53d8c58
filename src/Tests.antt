-- ===== src/Tests.antt =====
-- Runs of the models at concrete inputs, and the theorems of the library applied to them.
pub mod Sessions
pub mod Wire
pub mod Miner
pub mod Submits
pub mod Rounds
pub mod Payouts
pub mod Opened
pub mod Coinbase
pub mod Limiter
pub mod Addresses
pub mod Blocks
pub mod Blocking
pub mod Sizes
pub mod Versions
