-- ===== src/Oracle.antt =====
-- contracts/oracle/OracleAdapter.sol: the gateway to the Chainlink values, with a lock and with values
-- that the Emergency Safe submits in their place.
pub mod State
pub mod Calls
pub mod Values
pub mod Flows
pub mod Requests
pub mod Sources
pub mod Locks
pub mod Recovery
pub mod Roles
mod Tests
