-- ===== src/Ledger/Truncate.antt =====
-- `removeBlocks` and `Truncate` (ledger/ledger.go) and `GetBranchInfo` (ledger/branch_manage.go): the
-- ledger is cut back to a block.
pub mod Removed
pub mod Walk
use corechain.Ledger.Store.{
  Action, Block, Ledger, delete_block, delete_height, err, fetch_block, ok, out_of_fuel,
  perform_all, put_meta, write_failed, ◌>>=◌, ◌>>◌,
}
use corechain.Ledger.Confirm.{update_branch_info}
use corechain.Prelude.{
  Bool, List, Option, [], false, if◌then◌else◌, ltb, some, suc, true, zero, ℕ, ◌==◌, ◌∷◌,
}
use corechain.Prelude.Dict.{Dict, erase}

-- One round of the loop of `removeBlocks`: the header leaves the cache, and the batch gets the
-- deletions.
unfoldable pub remove_block : Block → Ledger → Ledger
remove_block b s =
    let t = record s { cache = erase b.id s.cache; batch = delete_block b.id ∷ s.batch } in
    if b.in_trunk then record t { batch = delete_height b.height ∷ t.batch } else t

-- The loop; a parent that is missing ends it without an error.
unfoldable pub remove_loop : ℕ → Block → ℕ → Action (Unit {0})
remove_loop zero b h s = (out_of_fuel, s)
remove_loop (suc fuel) b h s = elim (ltb h b.height) [
  | false ↦ (ok tt, s)
  | true ↦
      let t = remove_block b s in
      let (r, u) = fetch_block b.pre t in
      elim r [ ok c ↦ remove_loop fuel c h u | err e ↦ (ok tt, u) | out_of_fuel ↦ (out_of_fuel, u) ]
]

unfoldable pub remove_blocks : Option ℕ → Option ℕ → Action (Unit {0})
remove_blocks i j = do b ← fetch_block i; c ← fetch_block j; remove_loop (suc b.height) b c.height

-- `GetBranchInfo`: the tips above the target, other than the target.
unfoldable pub get_branch_info : Dict ℕ → ℕ → ℕ → List ℕ
get_branch_info [] i h = []
get_branch_info ((j, k) ∷ d) i h =
    let rest = get_branch_info d i h in if i == j then rest else if ltb h k then j ∷ rest else rest

-- The loop of `Truncate` over the branch tips.
unfoldable pub cut_branches : List ℕ → Block → Action (Unit {0})
cut_branches [] b s = (ok tt, s)
cut_branches (tip ∷ tips) b s =
    (remove_blocks (some tip) (some b.id)
        >> ((λ t. (ok tt, record t { batch = update_branch_info b.id (some tip) b.height t.batch }))
            >> cut_branches tips b))
      s

unfoldable pub truncate : Bool → ℕ → Action (Unit {0})
truncate write_fails last s =
    (do
      b ← fetch_block (some last)
      cut_branches (get_branch_info s.disk.branches b.id b.height) b
      λ t.
          let m = record s.meta { tip = some last; trunk_height = b.height } in
          let all = put_meta m ∷ t.batch in
          if write_fails
          then (err write_failed, record t { batch = all })
          else (ok tt, record t { batch = all; disk = perform_all all t.disk; meta = m }))
      (record s { batch = [] })
