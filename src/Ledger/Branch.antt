-- ===== src/Ledger/Branch.antt =====
-- ledger/branch_manage.go: the common parent of two branches, and the exported `HandleFork`.
-- Reads of whole blocks go to the tables on disk; the cache of whole blocks is taken to agree with
-- them.
pub mod Common
pub mod Prune
use corechain.Ledger.Store.{
  Action, Block, Disk, Outcome, block_not_found, correct_txs_blockid, err, fetch_block, has_all, ok,
  out_of_fuel, save_block, tx_not_found, ◌>>=◌, ◌>>◌,
}
use corechain.Ledger.Fork.{same_id}
use corechain.Prelude.{Option, false, if◌then◌else◌, ltb, none, some, suc, true, zero, ℕ, ◌==◌}
use corechain.Prelude.Dict.{lookup}

-- `queryBlock` with the body.
unfoldable pub query_block : Disk → Option ℕ → Outcome Block
query_block d none = err block_not_found
query_block d (some i) = elim (lookup i d.blocks) [
  | none ↦ err block_not_found
  | some b ↦ if has_all b.tx_ids d.confirmed then ok b else err tx_not_found
]

abbrev pub bind_outcome : {A B : Type 0} → Outcome A → (A → Outcome B) → Outcome B
bind_outcome (ok a) f = f a
bind_outcome (err e) f = err e
bind_outcome out_of_fuel f = out_of_fuel

-- `for height1 > height2 { block1 = parent of block1 }`
unfoldable pub descend : ℕ → Disk → Block → ℕ → Outcome Block
descend zero d b h = out_of_fuel
descend (suc fuel) d b h = elim (ltb h b.height) [
  | true ↦ bind_outcome (query_block d b.pre) (λ c. descend fuel d c h)
  | false ↦ ok b
]

-- `for block1 != block2 { both go to their parents }`
unfoldable pub meet : ℕ → Disk → Block → Block → Outcome ℕ
meet zero d a b = out_of_fuel
meet (suc fuel) d a b = elim (a.id == b.id) [
  | true ↦ ok a.id
  | false ↦
      bind_outcome (query_block d a.pre)
        (λ a'. bind_outcome (query_block d b.pre) (λ b'. meet fuel d a' b'))
]

-- `GetCommonParentBlockid`; each loop is given as many rounds as the heights can need.
unfoldable pub get_common_parent : Disk → Option ℕ → Option ℕ → Outcome ℕ
get_common_parent d i j = bind_outcome (query_block d i) (λ a. bind_outcome (query_block d j) (λ b.
    bind_outcome (descend (suc a.height) d a b.height) (λ a'.
      bind_outcome (descend (suc b.height) d b a'.height) (λ b'. meet (suc a'.height) d a' b'))))

-- The first loop of `HandleFork`: the old branch leaves the trunk.
unfoldable pub leave_trunk : ℕ → Option ℕ → ℕ → Action (Unit {0})
leave_trunk zero old common s = (out_of_fuel, s)
leave_trunk (suc fuel) old common s = elim (same_id old (some common)) [
  | true ↦ (ok tt, s)
  | false ↦
      (fetch_block old >>= λ b.
      save_block (record b { in_trunk = false; next = none }) >> leave_trunk fuel b.pre common)
        s
]

-- The second loop of `HandleFork`: the new branch joins the trunk. Its last assignment is
-- `newTip = nextHash`, where `nextHash` is the identifier of the block just saved.
unfoldable pub join_trunk : ℕ → Option ℕ → ℕ → Option ℕ → Action (Unit {0})
join_trunk zero new common next s = (out_of_fuel, s)
join_trunk (suc fuel) new common next s = elim (same_id new (some common)) [
  | true ↦ (ok tt, s)
  | false ↦
      (fetch_block new >>= λ b.
      correct_txs_blockid b.id
      >> (save_block (record b { in_trunk = true; next = next })
          >> join_trunk fuel (some b.id) common (some b.id)))
        s
]

-- `HandleFork`
unfoldable pub prune_fork : ℕ → Option ℕ → Option ℕ → Action Block
prune_fork fuel old new s = elim (get_common_parent s.disk old new) [
  | ok common ↦
      (leave_trunk fuel old common
          >> (fetch_block new >>= λ b. join_trunk fuel new common none >> fetch_block b.pre))
        s
  | err e ↦ (err e, s)
  | out_of_fuel ↦ (out_of_fuel, s)
]
