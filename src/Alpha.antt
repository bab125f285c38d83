-- ===== src/Alpha.antt =====
-- scripts/alpha/{zap,swap,allocation}_deploy.js: contracts that the admin Safe deploys and registers. The
-- budget of calculate-deploy-amounts.js is in Strategies. Setup, Factories and Stops are about
-- 0_factories.js, 1_deployment_contract.js and 2_upgrader_contract.js.
pub mod Register
pub mod Registered
pub mod Runs
pub mod Setup
pub mod Factories
pub mod Stops
pub mod Tests
pub mod NoKey
