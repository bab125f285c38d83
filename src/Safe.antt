-- ===== src/Safe.antt =====
-- utils/helpers/safe.js: signers of the Gnosis Safes, and the wait for a transaction that the owners
-- of a Safe have to confirm.
pub mod Signers
pub mod Receipts
pub mod Created
pub mod Waits
pub mod Verified
pub mod Returned
pub mod Tests
