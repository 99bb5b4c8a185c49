-- ===== src/Permission.antt =====
-- The permissions of accounts and contract methods (permission/).
pub mod Names
pub mod Rules
pub mod Trees
pub mod Check
pub mod Accounts
