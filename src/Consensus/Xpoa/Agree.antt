-- ===== src/Consensus/Xpoa/Agree.antt =====
-- The miner of XPOA, which asks for the leader of a round to come, and the checks of its block go by
-- the same validators and the same turns.
use corechain.Consensus.Xpoa.RoundRobin.{leaders_take_turns, poa, scheduling_lem}
use corechain.Prelude.{
  Bool, Bool-cases, List, Option, ap, arith, false, get_elem?, inl, inr, length, none, refl, some,
  true, ℕ, ◌%◌, ◌*◌, ◌/◌, ◌<◌, ◌≡◌,
}
use corechain.Prelude.Int.{leb_ℤ, pos, ℤ}
use corechain.Consensus.Schedule.{◌-₆◌}
use corechain.Consensus.Xpoa.{
  LedgerRely, Slice, XpoaSchedule, get_leader, get_local_leader, get_local_validates, get_validates,
  get_validators, leader_time, not_nil, or_nil, target_height, ◌>>=◌,
}

from_not_nil : (o : Option Slice) (v : List ℕ) → (o >>= not_nil) ≡ some (some v) → o ≡ some (some v)
from_not_nil none v e = e
from_not_nil (some none) v e = ground (arith, e)
from_not_nil (some (some xs)) v e = e

no_rollback : (bft : Bool) (h : ℤ) → target_height bft none h ≡ some h
no_rollback true h = refl
no_rollback false h = refl

validators_agree :
    (s : XpoaSchedule) (l : LedgerRely) (round : ℤ) (v : List ℕ)
    → l.query_block_header_by_height round ≡ none
    → get_local_validates s l round none ≡ some (some v)
    → get_validators s l round ≡ some v
unfolding get_local_validates get_validators
validators_agree s l round v q e = elim (Bool-cases (leb_ℤ (round -₆ pos 1) (pos 3))) [
  | inl early ↦ rw early (ap or_nil (rw early at e))
  | inr late ↦
      let own = rw (late, no_rollback s.enable_bft (round -₆ pos 1)) at e in
      rw (late, q) (ap or_nil (from_not_nil (get_validates s l (round -₆ pos 1)) v own))
]

module _ (p b : ℕ) (init : Slice) (start : ℤ) (bft : Bool) (lp : 0 < p) (lb : 0 < b) where
  -- With a positive period and number of blocks, for a round that has no block, whose local validators
  -- without a rollback are a list that is not empty, when the time that the miner goes by (now, and a
  -- period later beyond the tip) and a whole round fit an int64: the miner takes the same leader for
  -- the round as the check of a block with that time, and it is the validator whose turn it is.
  pub miner_and_check_agree :
      (l : LedgerRely) (now round : ℤ) (time : ℕ) (v : List ℕ)
      → l.query_block_header_by_height round ≡ none
      → get_local_validates (poa p b init start bft) l round none ≡ some (some v)
      → leader_time (poa p b init start bft) l now round ≡ pos time
      → 0 < length v
      → p * b * length v < 9223372036854775808
      → time < 9223372036854775808
      → (leader : ℕ) × (get_elem? v (time / 1000000 / (p * b) % length v) ≡ some leader)
        × (get_leader (poa p b init start bft) l now round ≡ some (some leader))
        × (get_local_leader (poa p b init start bft) l (pos time) round none ≡ some (some leader))
  unfolding get_leader
  miner_and_check_agree l now round time v q e at_time ln hh ht =
      let (leader, at, local) =
        leaders_take_turns p b init start bft lp lb l time round none v e ln hh ht in
      let next = scheduling_lem p b init start bft lp lb time (length v) ln hh ht in
      (
        leader,
        at,
        rw (q, at_time, validators_agree (poa p b init start bft) l round v q e)
            (rw next (rw at refl)),
        local,
      )
