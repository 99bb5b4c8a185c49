-- ===== src/Consensus/Schedule/Examples.antt =====
-- The theorem of the schedule at a concrete time.
use corechain.Consensus.Schedule.{miner_scheduling}
use corechain.Consensus.Schedule.Range.{InRange, config, turn_in}
use corechain.Consensus.Schedule.Turns.{every_time_has_a_turn}
use corechain.Prelude.{arith, some, ◌*◌, ◌+◌, ◌-◌, ◌/◌, ◌≡◌}
use corechain.Prelude.Int.{pos}

-- Three proposers with ten blocks each, one block in three seconds.
every_time_has_a_turn_example :
    let t = 1559021779000000000 / 1000000 in
    let init = 1559021720000000000 / 1000000 in
    let q = (t - init) / (6000 + 9 * 3 * 3000 + 2 * 3000) in
    let begin = init + q * (6000 + 9 * 3 * 3000 + 2 * 3000) + 6000 - 3000 in
    (miner_scheduling (config 3000 9 2 3000 6000 1559021720000000000) (pos 1559021779000000000)
      ≡ some (turn_in 3000 9 3000 t (q + 1) begin))
    × InRange (turn_in 3000 9 3000 t (q + 1) begin) 3 10
every_time_has_a_turn_example =
    every_time_has_a_turn 3000 9 2 3000 6000 1559021720000000000 (omega arith) (omega arith)
      (omega arith) 1559021779000000000 (omega arith) (omega arith) (omega arith)
