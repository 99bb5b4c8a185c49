-- ===== src/Consensus.antt =====
-- The consensus of the chain (consensus/).
pub mod Safety
pub mod Schedule
pub mod Certs
pub mod Xpoa
