-- ===== src/Examples.antt =====
-- The theorems at concrete inputs, and runs of the definitions.
pub mod Files
pub mod Hashes
pub mod Times
pub mod Settings
pub mod Deliveries
pub mod Checks
pub mod Accounts
pub mod Services
pub mod Live
pub mod Series
pub mod Events
