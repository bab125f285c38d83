-- ===== src/Contract.antt =====
-- What the contracts share: calls that revert, the checked arithmetic of SafeMath, and sets.
pub mod Call
pub mod Math
pub mod Signed
pub mod Token
pub mod Enumerable
pub mod Access
