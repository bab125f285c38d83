-- ===== src/Local.antt =====
-- Scripts and helpers for a local node: account.js, token.js and aggregator.js of utils/helpers,
-- scripts/frontend and scripts/demo.
pub mod Account
pub mod Token
pub mod Utils
pub mod Demo
pub mod Fund
pub mod Aggregator
pub mod Tests
pub mod Tvl
