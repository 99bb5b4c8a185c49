-- ===== src/Ledger/Examples.antt =====
-- The theorems on the ledger at small concrete ledgers.
use corechain.Prelude.Dict.{lookup}
use corechain.Ledger.Fork.{fork_end, fork_step, handle_fork}
use corechain.Ledger.Fork.Walk.{Switched}
use corechain.Ledger.Fork.Switch.{handle_fork_ends, handle_fork_switches}
use corechain.Ledger.Branch.{get_common_parent, join_trunk, query_block}
use corechain.Ledger.Branch.Common.{IsStored, disk_links, get_common_parent_lem}
use corechain.Ledger.Branch.Prune.{join_trunk_diverges}
use corechain.Ledger.Confirm.{
  Env, Placed, commit, confirm_block, confirm_tx, confirm_txs, has_tx, place, place_by, place_child,
  place_on_tip,
}
use corechain.Ledger.Truncate.{remove_loop}
use corechain.Ledger.Truncate.Removed.{IsClean, Removed}
use corechain.Ledger.Truncate.Walk.{remove_loop-Removed}
use corechain.Ledger.Confirm.Txs.{IsIndexed, IsNew, coinbases, confirm_txs-IsNew}
use corechain.Ledger.Confirm.Reject.{refused_keeps_disk, refused_stays_cached}
use corechain.Ledger.Undo.{climb, find_split, find_undo_and_todo_blocks, second_half}
use corechain.Ledger.Store.{
  Block, Ledger, Tx, correct_txs_blockid, fetch_block, has_all, header, link_of, links, ok,
  out_of_fuel, put_tx, save_block,
}
use corechain.Ledger.Undo.Paths.{Chain}
use corechain.Ledger.Undo.Loop.{undo_and_todo_are_paths}
use corechain.Prelude.{
  All, List, [], arith, false, none, refl, some, true, ℕ, ◌+◌, ◌∷◌, ◌≡◌, ◌≢◌, ◌≤◌,
}
use corechain.Ledger.Tree.{IsSplit, IsTree}
use corechain.Ledger.Fork.Split.{IsFiled}

-- A root, the tip above it, and a fork beside the tip.
abbrev root_block : Block
root_block = record { id = 1; pre = none; height = 0; in_trunk = true; next = some 2; tx_ids = [] }

abbrev tip_block : Block
tip_block = record {
  id = 2;
  pre = some 1;
  height = 1;
  in_trunk = true;
  next = none;
  tx_ids = 70 ∷ [];
}

abbrev fork_block : Block
fork_block = record { id = 3; pre = some 1; height = 1; in_trunk = false; next = none; tx_ids = [] }

abbrev tip_tx : Tx
tip_tx = record { id = 70; block_id = 2; coinbase = false }

abbrev small : Ledger
small = record {
  disk = record {
    blocks = (1, root_block) ∷ (2, tip_block) ∷ (3, fork_block) ∷ [];
    heights = (0, 1) ∷ (1, 2) ∷ [];
    branches = (2, 1) ∷ (3, 1) ∷ [];
    confirmed = (70, tip_tx) ∷ [];
    meta = record { root = some 1; tip = some 2; trunk_height = 1 };
  };
  cache = [];
  batch = [];
  meta = record { root = some 1; tip = some 2; trunk_height = 1 };
}

small-IsFiled : IsFiled small
small-IsFiled i b h = ground arith

small-IsTree : IsTree (links small)
small-IsTree = record {
  parent = λ i k p h e. (link_of root_block, ground arith, ground arith);
  root = λ i k h e. ground arith;
  one_root = λ i j k m h h' e e'. ground arith;
}

small-IsStored : IsStored small.disk
unfolding has_all
small-IsStored = record {
  filed = λ i b h. ground arith;
  bodies = λ i b h. ground arith;
  tree = small-IsTree;
}

-- A fork beside the tip gets a block of its own and becomes the trunk.
handle_fork_ends_example : (handle_fork 2 (some 2) (some 3) (some 4) small).0 ≢ out_of_fuel
handle_fork_ends_example =
    handle_fork_ends 2 2 3 (some 4) small tip_block fork_block small-IsFiled small-IsTree refl refl
      refl (omega arith)

abbrev split_block : Block
split_block = record root_block { next = some 3 }

switch_runs : (handle_fork 2 (some 2) (some 3) (some 4) small).0 ≡ ok split_block
unfolding handle_fork fork_step fork_end fetch_block save_block correct_txs_blockid
switch_runs = refl

handle_fork_switches_example :
    Switched small (handle_fork 2 (some 2) (some 3) (some 4) small).1 2 3 split_block
handle_fork_switches_example =
    handle_fork_switches 2 2 3 (some 4) small tip_block fork_block split_block small-IsFiled
      small-IsTree refl refl refl (omega arith) switch_runs

get_common_parent_lem_example :
    (c : ℕ) × (get_common_parent small.disk (some 2) (some 3) ≡ ok c)
    × IsSplit (disk_links small.disk) 2 3 c
get_common_parent_lem_example =
    get_common_parent_lem small.disk 2 3 tip_block fork_block small-IsStored refl refl

-- To move from the fork to the tip, block 3 is undone and block 2 is played.
undo_runs : find_undo_and_todo_blocks small.disk 1 3 2 ≡ ok (fork_block ∷ [], tip_block ∷ [])
unfolding find_undo_and_todo_blocks find_split second_half climb query_block has_all
undo_runs = refl

undo_and_todo_are_paths_example :
    (c : ℕ) × (undo : List Block) × (todo : List Block) × (find_undo_and_todo_blocks small.disk 1 3
        2
      ≡ ok (undo, todo))
    × IsSplit (disk_links small.disk) 3 2 c
    × Chain small.disk c 3 undo
    × Chain small.disk c 2 todo
undo_and_todo_are_paths_example =
    undo_and_todo_are_paths small.disk 1 3 2 fork_block tip_block small-IsStored refl refl

fork_corrects : (correct_txs_blockid 3 small).0 ≡ ok tt
unfolding correct_txs_blockid
fork_corrects = refl

join_trunk_diverges_example : (join_trunk 1000 (some 3) 1 none small).0 ≡ out_of_fuel
join_trunk_diverges_example =
    join_trunk_diverges 1000 3 1 none small fork_block (ground arith) refl refl fork_corrects

abbrev env : Env
env = record { dedup_off = false; write_fails = false; genesis_loads = true }

abbrev new_block : Block
new_block = record { id = 4; pre = some 3; height = 2; in_trunk = true; next = none; tx_ids = [] }

abbrev new_tx : Tx
new_tx = record { id = 71; block_id = 0; coinbase = true }

passes :
    confirm_txs env small.disk new_block 0 0 (new_tx ∷ []) []
    ≡ ok (put_tx (record new_tx { block_id = 4 }) ∷ [])
unfolding confirm_txs confirm_tx has_tx
passes = refl

small-IsIndexed : IsIndexed small.disk
small-IsIndexed i ob k hb inside listed = (tip_tx, ground arith, ground arith)

confirm_txs-IsNew_example :
    (0 + coinbases (new_tx ∷ []) ≤ 1) × All (IsNew small.disk 0) (new_tx ∷ [])
confirm_txs-IsNew_example =
    confirm_txs-IsNew env small.disk new_block 0 0 (new_tx ∷ []) []
      (put_tx (record new_tx { block_id = 4 }) ∷ []) small-IsIndexed refl refl (omega arith) passes

-- A block on top of the tip that repeats a transaction of the tip.
abbrev bad : Block
bad = record { id = 5; pre = some 2; height = 2; in_trunk = true; next = none; tx_ids = 70 ∷ [] }

refused : (confirm_block env false bad (tip_tx ∷ []) small).0.succ ≡ false
unfolding confirm_block place place_child place_by place_on_tip fetch_block save_block commit
    confirm_txs confirm_tx has_tx
refused = refl

refused_keeps_disk_example :
    let s' = (confirm_block env false bad (tip_tx ∷ []) small).1 in
    (s'.disk ≡ small.disk) × (s'.meta ≡ small.meta)
refused_keeps_disk_example = refused_keeps_disk env bad (tip_tx ∷ []) small refused

abbrev placed_bad : Placed
placed_bad = record {
  block = bad;
  new_meta = record { root = some 1; tip = some 5; trunk_height = 2 };
  split_height = 1;
  split = false;
  trunk_switch = false;
  orphan = false;
}

placed_runs : (place env false bad small).0 ≡ ok placed_bad
unfolding place place_child place_by place_on_tip fetch_block save_block
placed_runs = refl

refused_stays_cached_example :
    let s' = (confirm_block env false bad (tip_tx ∷ []) small).1 in
    (header s' 5 ≡ some bad) × (lookup 5 s'.disk.blocks ≡ none) × (s'.disk ≡ small.disk)
refused_stays_cached_example =
    refused_stays_cached env bad (tip_tx ∷ []) small placed_bad placed_runs refused refl

small-IsClean : IsClean small
small-IsClean i b h = cc

remove_loop-Removed_example :
    ((remove_loop 2 tip_block 0 small).0 ≡ ok tt)
    × Removed small (remove_loop 2 tip_block 0 small).1 2 0
remove_loop-Removed_example =
    remove_loop-Removed 2 0 tip_block small small-IsFiled small-IsTree small-IsClean refl
      (omega arith)
