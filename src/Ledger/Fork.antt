-- ===== src/Ledger/Fork.antt =====
-- The switch of the trunk: `handleFork` (ledger/ledger.go), which `ConfirmBlock` calls, and
-- `HandleFork` (ledger/branch_manage.go), which the pruning command calls.
pub mod Split
pub mod Walk
pub mod Round
pub mod Switch
use corechain.Prelude.{Bool, Option, false, none, some, suc, true, zero, ℕ, ◌==◌}
use corechain.Ledger.Store.{
  Action, Block, correct_txs_blockid, fetch_block, out_of_fuel, pure, save_block, ◌>>=◌, ◌>>◌,
}

-- `bytes.Equal` on block identifiers.
abbrev pub same_id : Option ℕ → Option ℕ → Bool
same_id none none = true
same_id none (some j) = false
same_id (some i) none = false
same_id (some i) (some j) = i == j

-- The body of the loop of `handleFork`: one block off the trunk, one onto it.
unfoldable pub fork_step : Option ℕ → Option ℕ → Option ℕ → Action (Option ℕ × Option ℕ)
fork_step p q next = do
  p_block ← fetch_block p
  q_block ← fetch_block q
  correct_txs_blockid q_block.id
  save_block (record p_block { in_trunk = false; next = none })
  save_block (record q_block { in_trunk = true; next = next })
  pure (p_block.pre, q_block.pre)

-- What `handleFork` does once both sides have met.
unfoldable pub fork_end : Option ℕ → Option ℕ → Action Block
fork_end q next = do
  b ← fetch_block q
  let split_block = record b { in_trunk = true; next = next }
  save_block split_block
  pure split_block

unfoldable pub handle_fork : ℕ → Option ℕ → Option ℕ → Option ℕ → Action Block
handle_fork zero p q next s = (out_of_fuel, s)
handle_fork (suc fuel) p q next s = elim (same_id p q) [
  | true ↦ fork_end q next s
  | false ↦ (fork_step p q next >>= λ (p', q'). handle_fork fuel p' q' q) s
]
