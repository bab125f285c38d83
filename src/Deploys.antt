-- ===== src/Deploys.antt =====
-- scripts/mainnet, scripts/kovan and scripts/rinkeby: logic contracts, proxies and the voting escrow,
-- deployed by the admin Safe or by a key of the environment.
pub mod Rinkeby
pub mod Logic
pub mod Owner
pub mod Verified
pub mod Order
pub mod Runs
pub mod Tests
pub mod Handover
