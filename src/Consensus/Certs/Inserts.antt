-- ===== src/Consensus/Certs/Inserts.antt =====
-- The branches of `insert` on the tree of certificates.
use corechain.Consensus.Certs.{
  Node, Tree, adopt_orphans, attach, dfs_query, enforce_update_high_qc, find, fine, insert,
  insert_orphan, no_valid_parent_id, no_valid_qc, qc_of, raise, update_qc_status, update_qcs,
}
use corechain.Prelude.{arith, none, some, ℕ, ◌≡◌}

pub insert-joins :
    (n r : Node) (t : Tree) (p : ℕ)
    → (qc_of n).parent ≡ some p
    → attach p ((adopt_orphans n t.orphans).0) t.root ≡ some r
    → insert n t ≡ (fine, record t { root = r; orphans = (adopt_orphans n t.orphans).1 })
unfolding insert
insert-joins n r t p e e' = ground arith

pub insert-waits :
    (n : Node) (t : Tree) (p : ℕ)
    → (qc_of n).parent ≡ some p
    → attach p ((adopt_orphans n t.orphans).0) t.root ≡ none
    → insert n t ≡ (fine, insert_orphan n t)
unfolding insert
insert-waits n t p e e' = ground arith

pub insert-refuses :
    (n : Node) (t : Tree) → (qc_of n).parent ≡ none → insert n t ≡ (no_valid_parent_id, t)
unfolding insert
insert-refuses n t e = ground arith

-- `UpdateQCStatus` with a certificate of the tree does nothing.
pub status-known :
    (n x : Node) (t : Tree) → find (qc_of n).id t.root ≡ some x → update_qc_status n t ≡ (fine, t)
unfolding update_qc_status
status-known n x t e = ground arith

pub status-inserted :
    (n : Node) (t t' : Tree)
    → find (qc_of n).id t.root ≡ none
    → insert n t ≡ (fine, t')
    → update_qc_status n t ≡ (fine, raise (dfs_query t'.root (qc_of n).parent) t')
unfolding update_qc_status
status-inserted n t t' e e' = ground arith

pub status-refused :
    (n : Node) (t : Tree)
    → find (qc_of n).id t.root ≡ none
    → (qc_of n).parent ≡ none
    → update_qc_status n t ≡ (no_valid_parent_id, t)
unfolding update_qc_status
status-refused n t e e' = ground (arith, insert-refuses n t e')

-- `EnforceUpdateHighQC`, with a certificate of the tree and with another one.
pub enforce-found :
    (i : ℕ) (n : Node) (t : Tree)
    → find i t.root ≡ some n
    → enforce_update_high_qc i t ≡ (fine, update_qcs (qc_of n) t)
unfolding enforce_update_high_qc
enforce-found i n t e = ground arith

pub enforce-missing :
    (i : ℕ) (t : Tree) → find i t.root ≡ none → enforce_update_high_qc i t ≡ (no_valid_qc, t)
unfolding enforce_update_high_qc
enforce-missing i t e = ground arith
