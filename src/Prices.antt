-- ===== src/Prices.antt =====
-- utils/helpers/coingecko.js: requests that are tried again, and the prices of the symbols asked for.
pub mod Request
pub mod Coins
pub mod Tests
