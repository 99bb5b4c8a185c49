-- ===== src/Ledger.antt =====
-- The ledger of blocks (ledger/): its block tree, the search for fork points, the confirmation of
-- blocks and their removal.
pub mod Tree
pub mod Store
pub mod Fork
pub mod Branch
pub mod Confirm
pub mod Truncate
pub mod Undo
pub mod TopSort
mod Examples
