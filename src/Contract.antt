-- ===== src/Contract.antt =====
-- The kernel contracts (contract/) and the resource accounting that they share.
pub mod Limits
pub mod Govern
pub mod Proposal
pub mod Sandbox
