-- ===== src/Registry.antt =====
-- contracts/registry/AddressRegistryV2.sol: addresses by their ids, and the list of the ids.
pub mod Ids
pub mod Calls
pub mod Names
pub mod Invariant
pub mod Lookup
pub mod Events
mod Tests
