-- ===== src/Consensus/Certs.antt =====
-- consensus/chainbft/quorum/qctree.go: the tree of pending certificates and its four marks. A pointer
-- to a node is the certificate of the node where only that is read; an identifier is a number, and a
-- missing parent identifier is `none`.
pub mod Search
pub mod Inserts
pub mod Marks
pub mod Growth
mod Examples
use corechain.Prelude.{
  Bool, List, Option, [], contains, false, if◌then◌else◌, none, some, true, ℕ, ◌++◌, ◌==◌, ◌||◌,
  ◌∷◌,
}
use corechain.Prelude.Int.{leb_ℤ, ltb_ℤ, ℤ}

-- What the tree reads of a certificate.
pub record Qc : Type 0 where
  pub id : ℕ
  pub view : ℤ
  pub parent : Option ℕ

-- `ProposalNode`, with its list of sons.
mutual
  pub data Node : Type 0 where
    node : Qc → Nodes → Node

  pub data Nodes : Type 0 where
    no_sons : Nodes
    son : Node → Nodes → Nodes

abbrev pub qc_of : Node → Qc
qc_of (node c xs) = c

abbrev pub append_node : Nodes → Node → Nodes
append_node no_sons n = son n no_sons
append_node (son x xs) n = son x (append_node xs n)

-- `node.Sons = append(node.Sons, n)`
abbrev pub add_son : Node → Node → Node
add_son (node c xs) n = node c (append_node xs n)

abbrev pub or_else {ℓ} : {A : Type ℓ} → Option A → Option A → Option A
or_else (some a) b = some a
or_else none b = b

-- `dfsQuery` below a node, for an identifier.
unfoldable mutual
  pub find : ℕ → Node → Option Node
  find i (node c xs) = if c.id == i then some (node c xs) else find_all i xs

  pub find_all : ℕ → Nodes → Option Node
  find_all i no_sons = none
  find_all i (son x xs) = or_else (find i x) (find_all i xs)

-- `dfsQuery`: no node for a missing identifier.
abbrev pub dfs_query : Node → Option ℕ → Option Node
dfs_query t none = none
dfs_query t (some i) = find i t

abbrev pub graft : Qc → Option Nodes → Option Node
graft c none = none
graft c (some xs) = some (node c xs)

abbrev pub graft_all : Node → Nodes → Option Node → Option Nodes → Option Nodes
graft_all x xs (some y) below = some (son y xs)
graft_all x xs none none = none
graft_all x xs none (some ys) = some (son x ys)

-- `parent.Sons = append(parent.Sons, n)` at the node that `dfsQuery` finds, if it finds one.
unfoldable mutual
  pub attach : ℕ → Node → Node → Option Node
  attach p n (node c xs) =
      if c.id == p then some (node c (append_node xs n)) else graft c (attach_all p n xs)

  pub attach_all : ℕ → Node → Nodes → Option Nodes
  attach_all p n no_sons = none
  attach_all p n (son x xs) = graft_all x xs (attach p n x) (attach_all p n xs)

abbrev pub attach_to : Option ℕ → Node → Node → Option Node
attach_to none n t = none
attach_to (some p) n t = attach p n t

-- `QCPendingTree`; `orphan_map` lists the identifiers that were taken in as orphans.
pub record Tree : Type 0 where
  pub genesis : Qc
  pub root : Node
  pub high : Qc
  pub generic : Option Qc
  pub locked : Option Qc
  pub commit : Option Qc
  pub orphans : List Node
  pub orphan_map : List ℕ

-- `InitQCTree` on a fresh ledger: one node, and no mark above it.
abbrev pub init_qc_tree : Qc → Tree
init_qc_tree g = record {
  genesis = g;
  root = node g no_sons;
  high = g;
  generic = none;
  locked = none;
  commit = none;
  orphans = [];
  orphan_map = [];
}

-- Whether the parent identifier of the first node is that of the second.
abbrev pub is_son : Node → Node → Bool
is_son o n = elim ((qc_of o).parent) [ none ↦ false | some p ↦ p == (qc_of n).id ]

-- The walk of `insertOrphan` over the orphans, for a root of view `v`.
unfoldable pub place_orphan : ℤ → Node → List Node → List Node
place_orphan v n [] = n ∷ []
place_orphan v n (o ∷ os) =
    let rest = place_orphan v n os in
    if leb_ℤ (qc_of o).view v
    then rest
    else (if is_son o n
        then os ++ add_son n o ∷ []
        else elim (attach_to (qc_of n).parent n o) [ some o' ↦ o' ∷ os | none ↦ o ∷ rest ])

-- `insertOrphan`
unfoldable pub insert_orphan : Node → Tree → Tree
insert_orphan n t = if contains (qc_of n).id t.orphan_map then t else record t {
  orphan_map = (qc_of n).id ∷ t.orphan_map;
  orphans = place_orphan (qc_of t.root).view n t.orphans;
}

-- `adoptOrphans`: the node with its new sons, and the orphans that are left.
unfoldable pub adopt_orphans : Node → List Node → Node × List Node
adopt_orphans n [] = (n, [])
adopt_orphans n (o ∷ os) =
    if is_son o n
    then adopt_orphans (add_son n o) os
    else (let (n', left) = adopt_orphans n os in (n', o ∷ left))

-- The errors of this file.
pub data Answer : Type 0 where
  fine no_valid_parent_id no_valid_qc : Answer

-- `insert`, of a node with a certificate
unfoldable pub insert : Node → Tree → Answer × Tree
insert n t = elim ((qc_of n).parent) [
  | none ↦ (no_valid_parent_id, t)
  | some p ↦
      let (n', left) = adopt_orphans n t.orphans in
      (
        fine,
        elim (attach p n' t.root) [
          | none ↦ insert_orphan n t
          | some r ↦ record t { root = r; orphans = left }
        ],
      )
]

abbrev pub map_qc : Option Node → Option Qc
map_qc none = none
map_qc (some n) = some (qc_of n)

-- The certificate of the parent in the tree.
abbrev pub parent_in : Node → Option Qc → Option Qc
parent_in root none = none
parent_in root (some c) = map_qc (dfs_query root c.parent)

-- `updateQCs`: the node becomes the highest, and the marks are set along its parents.
unfoldable pub update_qcs : Qc → Tree → Tree
update_qcs c t =
    let generic = parent_in t.root (some c) in
    let locked = parent_in t.root generic in
    record t { high = c; generic = generic; locked = locked; commit = parent_in t.root locked }

-- To take a certificate of the tree as the highest unless its view is lower.
abbrev pub raise : Option Node → Tree → Tree
raise none t = t
raise (some n) t = if ltb_ℤ (qc_of n).view t.high.view then t else update_qcs (qc_of n) t

-- `UpdateQCStatus`
unfoldable pub update_qc_status : Node → Tree → Answer × Tree
update_qc_status n t = elim (find (qc_of n).id t.root) [
  | some x ↦ (fine, t)
  | none ↦
      let (answer, t') = insert n t in
      (answer, elim answer [ fine ↦ raise (dfs_query t'.root (qc_of n).parent) t' | _ ↦ t' ])
]

-- `UpdateHighQC`
unfoldable pub update_high_qc : ℕ → Tree → Tree
update_high_qc i t = raise (find i t.root) t

-- `EnforceUpdateHighQC`
unfoldable pub enforce_update_high_qc : ℕ → Tree → Answer × Tree
enforce_update_high_qc i t = elim (find i t.root) [
  | none ↦ (no_valid_qc, t)
  | some n ↦ (fine, update_qcs (qc_of n) t)
]

-- The node that `dfsQuery` finds loses its sons.
unfoldable mutual
  pub cut : ℕ → Node → Option Node
  cut i (node c xs) = if c.id == i then some (node c no_sons) else graft c (cut_all i xs)

  pub cut_all : ℕ → Nodes → Option Nodes
  cut_all i no_sons = none
  cut_all i (son x xs) = graft_all x xs (cut i x) (cut_all i xs)

abbrev pub is_found : Option Node → Bool
is_found none = false
is_found (some n) = true

-- Whether the node found for `i` is found for `j`, or lies below the node found for `j`.
unfoldable mutual
  pub below : ℕ → ℕ → Node → Bool
  below i j (node c xs) =
      if c.id == j
      then is_found (find i (node c xs))
      else (if c.id == i then false else below_all i j xs)

  pub below_all : ℕ → ℕ → Nodes → Bool
  below_all i j no_sons = false
  below_all i j (son x xs) =
      if is_found (find i x) || is_found (find j x) then below i j x else below_all i j xs

-- The new root, cut where the old parent of the root lies below it.
abbrev pub new_root : Node → ℕ → Bool → Node
new_root n i false = n
new_root n i true = elim (cut i n) [ none ↦ n | some n' ↦ n' ]

-- `UpdateCommit`: the great-grandparent becomes the root, once its own parent has lost its sons.
unfoldable pub update_commit : ℕ → Tree → Tree
update_commit i t = elim (find i t.root) [
  | none ↦ t
  | some n1 ↦ elim (dfs_query t.root (qc_of n1).parent) [
    | none ↦ t
    | some n2 ↦ elim (dfs_query t.root (qc_of n2).parent) [
      | none ↦ t
      | some n3 ↦ elim (dfs_query t.root (qc_of n3).parent) [
        | none ↦ t
        | some n4 ↦ elim (dfs_query t.root (qc_of n4).parent) [
          | none ↦ t
          | some n5 ↦ record t {
            root = new_root n4 (qc_of n5).id (below (qc_of n5).id (qc_of n4).id t.root);
          }
        ]
      ]
    ]
  ]
]
