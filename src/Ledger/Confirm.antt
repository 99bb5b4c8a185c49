-- ===== src/Ledger/Confirm.antt =====
-- `ConfirmBlock` (ledger/ledger.go). The switch `DisableTxDedup`, the failure of the final write and
-- the loading of the genesis configuration are given by `Env`. The table of pending blocks, the
-- caches of whole blocks and of transactions, locks and metrics are left out.
pub mod Txs
pub mod Place
pub mod Longest
pub mod Reject
use corechain.Ledger.Store.{
  Action, Block, Disk, Error, Ledger, Meta, Outcome, Tx, Write, bad_block, delete_branch, err,
  fetch_block, genesis_failed, ok, out_of_fuel, perform_all, pure, put_branch, put_meta, put_tx,
  root_exists, save_block, tx_duplicated, write_failed, ◌>>=◌, ◌>>◌,
}
use corechain.Ledger.Fork.{handle_fork, same_id}
use corechain.Ledger.Branch.{bind_outcome}
use corechain.Prelude.{
  Bool, List, Option, [], false, if◌then◌else◌, leb, ltb, none, not, some, suc, true, ℕ, ◌&&◌, ◌+◌,
  ◌||◌, ◌∷◌,
}
use corechain.Prelude.Dict.{has, lookup}

pub record Env : Type 0 where
  pub dedup_off : Bool
  pub write_fails : Bool
  pub genesis_loads : Bool

-- `ConfirmStatus`
pub record Status : Type 0 where
  pub succ : Bool
  pub split : Bool
  pub trunk_switch : Bool
  pub orphan : Bool
  pub error : Option Error

-- Where the new block goes, with the new meta data.
pub record Placed : Type 0 where
  pub block : Block
  pub new_meta : Meta
  pub split_height : ℕ
  pub split : Bool
  pub trunk_switch : Bool
  pub orphan : Bool

unfoldable pub place_root : Block → Action Placed
place_root b s = elim b.pre [
  | some p ↦ (err bad_block, s)
  | none ↦ elim s.meta.root [
    | some r ↦ (err root_exists, s)
    | none ↦ (
      ok (record {
        block = record b { in_trunk = true; height = 0 };
        new_meta = record { root = some b.id; tip = some b.id; trunk_height = 0 };
        split_height = s.meta.trunk_height;
        split = false;
        trunk_switch = false;
        orphan = false;
      }),
      s,
    )
  ]
]

-- On top of the tip. The previous block is written back unless `DisableTxDedup` is set.
unfoldable pub place_on_tip : Env → Meta → Block → Block → Action Placed
place_on_tip env m b pre s =
    let placed : Placed = record {
      block = record b { in_trunk = true; height = pre.height + 1 };
      new_meta = record m { tip = some b.id; trunk_height = m.trunk_height + 1 };
      split_height = m.trunk_height;
      split = false;
      trunk_switch = false;
      orphan = false;
    } in
    if env.dedup_off
    then (ok placed, s)
    else (save_block (record pre { next = some b.id }) >> pure placed) s

-- The branch becomes the trunk.
unfoldable pub place_switch : Meta → Block → Block → Action Placed
place_switch m b pre = do
  split_block ← handle_fork (suc m.trunk_height) m.tip (some pre.id) (some b.id)
  pure (record {
    block = record b { in_trunk = true; height = pre.height + 1 };
    new_meta = record m { tip = some b.id; trunk_height = pre.height + 1 };
    split_height = split_block.height;
    split = true;
    trunk_switch = true;
    orphan = false;
  })

abbrev pub on_branch : Meta → Block → Block → Placed
on_branch m b pre = record {
  block = record b { in_trunk = false; height = pre.height + 1 };
  new_meta = m;
  split_height = m.trunk_height;
  split = true;
  trunk_switch = false;
  orphan = true;
}

unfoldable pub place_by : Env → Meta → Block → Block → Action Placed
place_by env m b pre t =
    if same_id (some pre.id) m.tip
    then place_on_tip env m b pre t
    else if ltb m.trunk_height (pre.height + 1)
    then place_switch m b pre t
    else (ok (on_branch m b pre), t)

unfoldable pub place_child : Env → Block → Action Placed
place_child env b s = (fetch_block b.pre >>= place_by env s.meta b) s

unfoldable pub place : Env → Bool → Block → Action Placed
place env is_root b = if is_root then place_root b else place_child env b

-- Whether the transaction counts as confirmed before; the check is skipped on the trunk if
-- `DisableTxDedup` is set.
unfoldable pub has_tx : Env → Disk → Block → Tx → Bool
has_tx env d b t = (not env.dedup_off || not b.in_trunk) && has t.id d.confirmed

-- One round of the loop over the transactions.
unfoldable pub confirm_tx : Env → Disk → Block → ℕ → Tx → List Write → Outcome (List Write)
unfolding has_tx
confirm_tx env d b h t ws =
    let put = put_tx (record t { block_id = b.id }) ∷ ws in
    if not (has_tx env d b t) then ok put else elim (lookup t.id d.confirmed) [
      | none ↦ ok put
      | some old ↦ elim (lookup old.block_id d.blocks) [
        | none ↦ ok put
        | some ob ↦
            if ob.in_trunk && (b.in_trunk && leb ob.height h)
            then err tx_duplicated
            else if b.in_trunk
            then ok put
            else ok ws
      ]
    ]

unfoldable pub confirm_txs :
    Env → Disk → Block → ℕ → ℕ → List Tx → List Write → Outcome (List Write)
confirm_txs env d b h n [] ws = ok ws
confirm_txs env d b h n (t ∷ ts) ws =
    let n' = if t.coinbase then n + 1 else n in
    if ltb 1 n'
    then err bad_block
    else bind_outcome (confirm_tx env d b h t ws) (λ ws'. confirm_txs env d b h n' ts ws')

-- `updateBranchInfo`
unfoldable pub update_branch_info : ℕ → Option ℕ → ℕ → List Write → List Write
update_branch_info added none h ws = put_branch added h ∷ ws
update_branch_info added (some deleted) h ws = put_branch added h ∷ delete_branch deleted ∷ ws

-- The error that the status carries: most failures leave the field empty.
abbrev pub reported : Error → Option Error
reported root_exists = some root_exists
reported tx_duplicated = some tx_duplicated
reported write_failed = some write_failed
reported genesis_failed = some genesis_failed
reported _ = none

abbrev pub failed : Option Error → Status
failed e = record { succ = false; split = false; trunk_switch = false; orphan = false; error = e }

abbrev pub status_of : Placed → Bool → Option Error → Status
status_of p good e = record {
  succ = good;
  split = p.split;
  trunk_switch = p.trunk_switch;
  orphan = p.orphan;
  error = e;
}

-- The status at the end: the load of the genesis configuration comes last.
abbrev pub final_status : Env → Bool → Placed → Status
final_status env is_root p =
    if is_root && not env.genesis_loads
    then status_of p false (some genesis_failed)
    else if env.write_fails
    then status_of p false (some write_failed)
    else status_of p true none

-- From the saving of the block to the end.
unfoldable pub commit : Env → Bool → Placed → List Tx → Ledger → Status × Ledger
commit env is_root p txs s =
    let s1 = (save_block p.block s).1 in
    let ws = update_branch_info p.block.id p.block.pre p.block.height s1.batch in
    elim (confirm_txs env s1.disk p.block p.split_height 0 txs ws) [
      | err e ↦ (status_of p false (reported e), record s1 { batch = ws })
      | out_of_fuel ↦ (status_of p false none, record s1 { batch = ws })
      | ok ws' ↦
          let all = put_meta p.new_meta ∷ ws' in
          (
            final_status env is_root p,
            if env.write_fails
                then record s1 { batch = all }
                else record s1 { batch = all; disk = perform_all all s1.disk; meta = p.new_meta },
          )
    ]

unfoldable pub confirm_block : Env → Bool → Block → List Tx → Ledger → Status × Ledger
confirm_block env is_root b txs s =
    let (r, t) = place env is_root b (record s { batch = [] }) in
    elim r [
      | ok p ↦ commit env is_root p txs t
      | err e ↦ (failed (reported e), t)
      | out_of_fuel ↦ (failed none, t)
    ]
