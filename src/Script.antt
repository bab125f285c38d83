-- ===== src/Script.antt =====
-- What the scripts do to the outside world: calls that are awaited one after the other, with an
-- answer or a rejected promise for each. The world's answers are not modelled: a script is the tree of
-- all that it may do, and a run follows one answer after each call.
pub mod Core
pub mod Monitor
pub mod Common
pub mod Chain
pub mod Sample
pub mod Returns
pub mod Proxy
pub mod Interleave
pub mod Gas
