-- ===== src/Address.antt =====
-- utils/helpers/address.js, over the tables of utils/constants.js: the JSON files of deployed
-- addresses, and the tables of tokens and price feeds.
pub mod Constants
pub mod Registry
pub mod Stored
pub mod Table
pub mod Errors
mod Tests
