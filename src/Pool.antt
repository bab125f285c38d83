-- ===== src/Pool.antt =====
-- contracts/pool/PoolTokenV3.sol and contracts/mapt/MetaPoolTokenV2.sol: what deposits, withdrawals and
-- the moves between the pools and the LP Account come to.
pub mod Amounts
pub mod TopUp
pub mod Rounding
pub mod Moves
pub mod Deposit
pub mod RoundTrip
pub mod Meta
pub mod Rebalance
pub mod Covered
pub mod Withdrawn
pub mod Supply
pub mod Settings
mod Tests
mod SupplyTests
mod DepositTests
mod WithdrawnTests
