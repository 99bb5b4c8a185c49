-- ===== src/Consensus/Xpoa/Examples.antt =====
-- The validators of XPOA and their turns at concrete heights and times.
use corechain.Consensus.Xpoa.Agree.{miner_and_check_agree}
use corechain.Consensus.Xpoa.{
  Header, LedgerRely, get_leader, get_local_leader, get_local_validates, get_validates,
  get_validates_by_block_id, leader_time, update_validator,
}
use corechain.Consensus.Schedule.{◌*₆◌, ◌+₆◌, ◌-₆◌}
use corechain.Consensus.Xpoa.RoundRobin.{leaders_take_turns, poa}
use corechain.Prelude.{
  List, Option, [], arith, get_elem?, if◌then◌else◌, leb, none, refl, some, true, ℕ, ◌%◌, ◌*◌, ◌/◌,
  ◌==◌, ◌∷◌, ◌≡◌,
}
use corechain.Prelude.Int.{int64, negsuc, pos, ℤ, ◌*ℤ◌, ◌+ℤ◌, ◌-ℤ◌}

abbrev block_at : ℤ → Option Header
block_at (pos h) = if leb h 16 then some (record { id = h; proposer = 1; storage = none }) else none
block_at (negsuc h) = none

-- The blocks up to the height 16; the validators are changed in the block of the height 10.
abbrev ledger : LedgerRely
ledger = record {
  query_block_header_by_height = block_at;
  tip_height = pos 16;
  snapshot_get = λ h. some (if leb 10 h then some 7 else none);
  load_validators_multi_info = λ v. if v == 7 then some (some (11 ∷ 12 ∷ 13 ∷ [])) else none;
}

abbrev first : Option (List ℕ)
first = some (1 ∷ 2 ∷ [])

-- The change takes effect three blocks after.
before : get_local_validates (poa 3000 10 first (pos 1) true) ledger (pos 13) none ≡ some first
unfolding get_local_validates ◌-₆◌ int64 ◌-ℤ◌ get_validates ◌+₆◌ ◌+ℤ◌ get_validates_by_block_id
before = refl

after :
    get_local_validates (poa 3000 10 first (pos 1) true) ledger (pos 14) none
    ≡ some (some (11 ∷ 12 ∷ 13 ∷ []))
unfolding get_local_validates ◌-₆◌ int64 ◌-ℤ◌ get_validates ◌+₆◌ ◌+ℤ◌ get_validates_by_block_id
after = refl

-- A rollback to an earlier height brings the earlier validators back.
rolled_back :
    get_local_validates (poa 3000 10 first (pos 1) true) ledger (pos 14) (some (some (pos 5)))
    ≡ some first
unfolding get_local_validates ◌-₆◌ int64 ◌-ℤ◌ get_validates ◌+₆◌ ◌+ℤ◌ get_validates_by_block_id
rolled_back = refl

leaders_take_turns_example :
    (leader : ℕ) × (get_elem? (11 ∷ 12 ∷ 13 ∷ []) (1559021779000000000 / 1000000 / (3000 * 10) % 3)
      ≡ some leader)
    × (get_local_leader
          (poa 3000 10 first (pos 1) true)
          ledger
          (pos 1559021779000000000)
          (pos 14)
          none
        ≡ some (some leader))
leaders_take_turns_example =
    leaders_take_turns 3000 10 first (pos 1) true (omega arith) (omega arith) ledger
      1559021779000000000 (pos 14) none (11 ∷ 12 ∷ 13 ∷ []) after (omega arith) (omega arith)
      (omega arith)

settled :
    get_local_validates (poa 3000 10 first (pos 1) true) ledger (pos 17) none
    ≡ some (some (11 ∷ 12 ∷ 13 ∷ []))
unfolding get_local_validates ◌-₆◌ int64 ◌-ℤ◌ get_validates ◌+₆◌ ◌+ℤ◌ get_validates_by_block_id
settled = refl

-- Beyond the tip the miner goes by a time that is a period later.
one_period_later :
    leader_time (poa 3000 10 first (pos 1) true) ledger (pos 1559021779000000000) (pos 17)
    ≡ pos 1559021782000000000
unfolding ◌+₆◌ int64 ◌+ℤ◌ ◌*₆◌ ◌*ℤ◌
one_period_later = refl

miner_and_check_agree_example :
    (leader : ℕ) × (get_elem? (11 ∷ 12 ∷ 13 ∷ []) (1559021782000000000 / 1000000 / (3000 * 10) % 3)
      ≡ some leader)
    × (get_leader (poa 3000 10 first (pos 1) true) ledger (pos 1559021779000000000) (pos 17)
        ≡ some (some leader))
    × (get_local_leader
          (poa 3000 10 first (pos 1) true)
          ledger
          (pos 1559021782000000000)
          (pos 17)
          none
        ≡ some (some leader))
miner_and_check_agree_example =
    miner_and_check_agree 3000 10 first (pos 1) true (omega arith) (omega arith) ledger
      (pos 1559021779000000000) (pos 17) 1559021782000000000 (11 ∷ 12 ∷ 13 ∷ []) refl settled
      one_period_later (omega arith) (omega arith) (omega arith)

-- The schedule takes over a list that differs from its own, and says so.
taken_over :
    update_validator (poa 3000 10 first (pos 1) true) ledger (pos 16) first
    ≡ (some (11 ∷ 12 ∷ 13 ∷ []), true)
unfolding update_validator int64 ◌-₆◌ ◌-ℤ◌ get_validates ◌+₆◌ ◌+ℤ◌ get_validates_by_block_id
taken_over = refl
