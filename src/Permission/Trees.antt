-- ===== src/Permission/Trees.antt =====
-- permission/rule/ptree.go: the tree of an account or a method with its signers. Nodes are shared by
-- pointers, so they stand in a heap; a new node has the next address.
use corechain.Permission.Names.{Name, same_name}
use corechain.Permission.Rules.{Acl, Float64, Status, not_verified}
use corechain.Prelude.{
  Bool, List, Option, [], false, if◌then◌else◌, none, some, suc, true, zero, ℕ, ◌++◌, ◌==◌, ◌∷◌,
}

pub record PermNode (r : Float64) : Type 0 where
  pub name : Name
  pub acl : Option (Acl r)
  pub status : Status
  pub children : List ℕ

pub record Heap (r : Float64) : Type 0 where
  pub nodes : ℕ → Option (PermNode r)
  pub next : ℕ

-- The manager of access control lists: an error, no list, or a list.
abbrev pub AclManager : Float64 → Type 0
AclManager r = Name → Option (Option (Acl r))

-- `NewPermNode`
abbrev pub new_perm_node : (r : Float64) → Name → Option (Acl r) → PermNode r
new_perm_node r n acl = record { name = n; acl = acl; status = not_verified; children = [] }

abbrev pub write : {r : Float64} → ℕ → PermNode r → Heap r → Heap r
write i n h = record h { nodes = λ j. if i == j then some n else h.nodes j }

-- `FindChild` on the children of a node.
unfoldable pub find_child : {r : Float64} → Heap r → Name → List ℕ → Option ℕ
find_child h name [] = none
find_child h name (c ∷ cs) = elim (h.nodes c) [
  | none ↦ find_child h name cs
  | some n ↦ if same_name n.name name then some c else find_child h name cs
]

-- A new node with the next address becomes the last child of the node at `i`.
abbrev pub append_child : {r : Float64} → Heap r → ℕ → PermNode r → PermNode r → Heap r
append_child h i n new = record {
  nodes = λ j.
      if i == j
      then some (record n { children = n.children ++ h.next ∷ [] })
      else (if h.next == j then some new else h.nodes j);
  next = suc h.next;
}

-- The inner loop of `buildPermTree`, from the node at `i` along the names that are left.
unfoldable pub add_path : {r : Float64} → AclManager r → ℕ → List Name → Heap r → Option (Heap r)
add_path mgr i [] h = some h
add_path {r} mgr i (name ∷ names) h = elim (h.nodes i) [
  | none ↦ none
  | some n ↦ elim (find_child h name n.children) [
    | some c ↦ add_path mgr c names h
    | none ↦ elim (mgr name) [
      | none ↦ none
      | some acl ↦ add_path mgr h.next names (append_child h i n (new_perm_node r name acl))
    ]
  ]
]

-- The names to follow below the root: for an account, those after the name of the account itself.
unfoldable pub path_below : Bool → Name → List Name → Option (List Name)
path_below false root uri = some uri
path_below true root [] = none
path_below true root (a ∷ []) = none
path_below true root (a ∷ (b ∷ bs)) = if same_name a root then some (b ∷ bs) else none

-- `buildPermTree`, on uris that are split at their slashes; the root has address 0.
unfoldable pub build_perm_tree :
    {r : Float64} → AclManager r → Bool → Name → List (List Name) → Heap r → Option (Heap r)
build_perm_tree mgr of_account root [] h = some h
build_perm_tree mgr of_account root (uri ∷ uris) h = elim (path_below of_account root uri) [
  | none ↦ build_perm_tree mgr of_account root uris h
  | some names ↦ elim (add_path mgr 0 names h) [
    | none ↦ none
    | some h' ↦ build_perm_tree mgr of_account root uris h'
  ]
]

abbrev pub root_heap : (r : Float64) → Name → Option (Acl r) → Heap r
root_heap r name acl = record {
  nodes = λ j. if 0 == j then some (new_perm_node r name acl) else none;
  next = 1;
}

-- `BuildAccountPermTree`, and `BuildMethodPermTree` with the list of the method.
unfoldable pub build_tree :
    {r : Float64}
    → AclManager r
    → Bool
    → Name
    → Option (Option (Acl r))
    → List (List Name)
    → Option (Heap r)
build_tree mgr of_account root none uris = none
build_tree {r} mgr of_account root (some acl) uris =
    build_perm_tree mgr of_account root uris (root_heap r root acl)

abbrev pub children_of : {r : Float64} → Option (PermNode r) → List ℕ
children_of none = []
children_of (some n) = n.children

abbrev pub listed : ℕ → Option (List ℕ) → Option (List ℕ)
listed i none = none
listed i (some is) = some (i ∷ is)

-- `GetPermTreeList` from the nodes that are still to be visited; it is given a number of rounds.
unfoldable pub get_perm_tree_list : {r : Float64} → ℕ → Heap r → List ℕ → Option (List ℕ)
get_perm_tree_list fuel h [] = some []
get_perm_tree_list zero h (i ∷ is) = none
get_perm_tree_list (suc fuel) h (i ∷ is) =
    listed i (get_perm_tree_list fuel h (is ++ children_of (h.nodes i)))
