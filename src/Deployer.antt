-- ===== src/Deployer.antt =====
-- scripts/deploy: a whole deployment, which the tests start from.
pub mod Factories
pub mod Steps
pub mod Allocations
pub mod Main
pub mod Places
pub mod Order
mod Tests
