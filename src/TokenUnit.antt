-- ===== src/TokenUnit.antt =====
-- utils/helpers/unit.js: `tokenAmountToBigNumber`, which reads a token amount in big units, such as
-- "1.5", as an integer number of the token's smallest units.
pub mod Convert
pub mod Digits
pub mod Exact
mod Tests
