-- ===== src/Contract/Proposal/Timer.antt =====
-- contract/proposal/timer/timer_task_contract.go: the registration of tasks. The key
-- "<height>_<task id>" is the task's identifier with the height beside it, as no height holds the
-- separator.
use corechain.Contract.Proposal.World.{
  Env, Run, Task, Text, World, add_resource_used, argument_missing, or_refuse, put, reply,
  task_id_key, task_key, ◌>>=◌, ◌>>◌,
}
use corechain.Contract.Govern.Ledger.{Unit0}
use corechain.Prelude.{Option, none, some, ℕ, ◌+◌}
use corechain.Prelude.Int.{pos}
use corechain.Prelude.Dict.{insert}

-- `getNextTaskID`
unfoldable pub get_next_task_id : Run ℕ
get_next_task_id w = elim w.latest_task [ none ↦ (reply 1, w) | some n ↦ (reply (n + 1), w) ]

abbrev pub put_task : ℕ → Text → Task → World → World
put_task i h t w = record w { tasks = insert i (record { block_height = h; task = t }) w.tasks }

-- `Add`
unfoldable pub add_task : Env → Option Text → Option Task → Run Unit0
unfolding get_next_task_id
add_task env block_height trigger = do
  height ← or_refuse block_height argument_missing
  task ← or_refuse trigger argument_missing
  i ← get_next_task_id
  put env task_id_key (λ w. record w { latest_task = some i })
  put env (task_key i) (put_task i height task)
  add_resource_used (pos 0)
