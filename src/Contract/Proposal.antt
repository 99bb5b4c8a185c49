-- ===== src/Contract/Proposal.antt =====
-- contract/proposal: the kernel contracts "$timer_task" (timer/timer_task_contract.go) and
-- "$proposal" (propose/propose_contract.go), which stand on the govern token contract.
pub mod World
pub mod Timer
pub mod Propose
pub mod Effects
pub mod Outcome
pub mod Triggered
pub mod Escrow
pub mod History
pub mod Lifecycle
pub mod Decision
pub mod Keys
mod Examples
