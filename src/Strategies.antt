-- ===== src/Strategies.antt =====
-- scripts/alpha/calculate-deploy-amounts.js: how much of each stablecoin goes to each strategy. The
-- balances that the chain reports are `uint256`, so natural numbers; every `BigNumber` that the
-- script computes by a subtraction is an integer, which could be negative.
pub mod Amounts
pub mod Budget
pub mod Share
pub mod Totals
mod Tests
