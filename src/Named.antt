-- ===== src/Named.antt =====
-- contracts/libraries/NamedAddressSet.sol: a set of contracts that are looked up by their names.
pub mod Calls
pub mod Invariant
pub mod Listing
pub mod Tests
