-- ===== src/Contract/Proposal/Lifecycle.antt =====
-- How the status of a proposal moves.
use corechain.Contract.Proposal.World.{
  Proposal, Status, World, cancelled, completed_failure, completed_success, passed, rejected,
  voting,
}
use corechain.Prelude.{some, ℕ, ◌≡◌, ◌⊎◌}
use corechain.Prelude.Dict.{lookup}

-- The moves that the contract is meant to make.
pub data Move : Status → Status → Type 0 where
  cancel : Move voting cancelled
  reject : Move voting rejected
  pass : Move voting passed
  succeed : Move passed completed_success
  fail : Move passed completed_failure

-- Any number of moves.
pub data Moves : Status → Status → Type 0 where
  stay : {s : Status} → Moves s s
  move : {s t u : Status} → Moves s t → Move t u → Moves s u

-- A proposal is still there, by the same proposer, and has made at most one move.
abbrev Advanced : World → World → ℕ → Proposal → Type 0
Advanced w w' i p =
    (q : Proposal) × (lookup i w'.proposals ≡ some q)
    × (q.proposer ≡ p.proposer)
    × ((q.status ≡ p.status) ⊎ Move p.status q.status)
