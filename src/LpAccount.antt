-- ===== src/LpAccount.antt =====
-- contracts/lpaccount/LpAccountV2.sol: the account that deploys the platform's funds.
pub mod State
pub mod Checks
pub mod Fees
pub mod Calls
pub mod Sending
pub mod Claim
pub mod Bounds
pub mod Locks
pub mod Guards
pub mod Registered
pub mod Rewards
pub mod Tests
