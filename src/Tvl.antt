-- ===== src/Tvl.antt =====
-- contracts/tvl: the manager of the total value locked, and the allocation of plain tokens.
pub mod Ids
pub mod State
pub mod Calls
pub mod Tokens
pub mod Listing
pub mod Totals
pub mod Locks
pub mod Invariant
pub mod Data
pub mod Platform
pub mod Tests
