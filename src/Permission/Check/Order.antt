-- ===== src/Permission/Check/Order.antt =====
-- The nodes of a tree of permissions stand before their children, in the heap and in the list.
use corechain.Permission.Rules.{Acl, Float64}
use corechain.Permission.Names.{Name}
use corechain.Permission.Trees.{
  AclManager, Heap, PermNode, add_path, append_child, build_perm_tree, build_tree, children_of,
  find_child, get_perm_tree_list, listed, new_perm_node, path_below, root_heap,
}
use corechain.Prelude.{
  Bool, Bool-cases, List, Option, Option-cases, [], ap, arith, contains, contains-append, false,
  inl, inr, ltb, ltb→lt, none, refl, some, subst, suc, sym, true, zero, ℕ, ◌++◌, ◌+◌, ◌<◌, ◌==◌,
  ◌∙◌, ◌∷◌, ◌≡◌, ◌≤◌,
}

-- Each child has a higher address than its parent, each stored node an address below the next, and
-- the root is stored.
pub record Ordered {r : Float64} (h : Heap r) : Type 0 where
  pub child : (i c : ℕ) → contains c (children_of (h.nodes i)) ≡ true → i < c
  pub fresh : (i : ℕ) → h.next ≤ i → h.nodes i ≡ none
  pub root : (n : PermNode r) × (h.nodes 0 ≡ some n)

root_heap-Ordered : (r : Float64) (n : Name) (acl : Option (Acl r)) → Ordered (root_heap r n acl)
root_heap-Ordered r n acl = record {
  child = λ i c has. ground arith;
  fresh = λ i le. ground arith;
  root = (new_perm_node r n acl, refl);
}

stored-lt :
    {r : Float64} (h : Heap r) (i : ℕ) (n : PermNode r)
    → Ordered h
    → h.nodes i ≡ some n
    → i < h.next
stored-lt h i n o e = elim (Bool-cases (ltb i h.next)) [
  | inl lt ↦ ltb→lt i h.next lt
  | inr ge ↦ absurd (unstored (o.fresh i (ground arith)))
]
  where
    unstored : h.nodes i ≡ none → ⊥
    unstored f = ground arith

append_child-Ordered :
    {r : Float64} (h : Heap r) (i : ℕ) (n : PermNode r) (name : Name) (acl : Option (Acl r))
    → Ordered h
    → h.nodes i ≡ some n
    → Ordered (append_child h i n (new_perm_node r name acl))
append_child-Ordered {r} h i n name acl o e = record {
  child = λ j c has. elim (Bool-cases (i == j)) [
    | inl same ↦ elim (Bool-cases (contains c n.children)) [
      | inl old ↦ old_child j c same old
      | inr new ↦
          let lt = stored-lt h i n o e in
          let is : c ≡ h.next = ground (arith, contains-append c n.children (h.next ∷ [])) in
          ground arith
    ]
    | inr other ↦ elim (Bool-cases (h.next == j)) [
      | inl at_next ↦ absurd (ground arith)
      | inr old ↦ o.child j c (ground arith)
    ]
  ];
  fresh = λ j le. let lt = stored-lt h i n o e in let f = o.fresh j (omega arith) in ground arith;
  root = elim (Bool-cases (i == 0)) [
    | inl same ↦ (record n { children = n.children ++ h.next ∷ [] }, ground arith)
    | inr other ↦ let lt = stored-lt h i n o e in (o.root.0, old_root other (omega arith))
  ];
}
  where
    old_root :
        (i == 0) ≡ false
        → 0 < h.next
        → (append_child h i n (new_perm_node r name acl)).nodes 0 ≡ some (o.root.0)
    old_root other lt = let e0 = o.root.1 in ground arith

    old_child : (j c : ℕ) → (i == j) ≡ true → contains c n.children ≡ true → j < c
    old_child j c same old =
        let lt = o.child i c (ap (λ z. contains c (children_of z)) e ∙ old) in ground arith

add_path-Ordered :
    {r : Float64} (mgr : AclManager r) (names : List Name) (i : ℕ) (h h' : Heap r)
    → Ordered h
    → add_path mgr i names h ≡ some h'
    → Ordered h'
unfolding add_path
add_path-Ordered mgr [] i h h' o e = subst Ordered (ground arith) o
add_path-Ordered {r} mgr (name ∷ names) i h h' o e = elim (Option-cases (h.nodes i)) [
  | inl e1 ↦ absurd (ground arith)
  | inr (n, e1) ↦ elim (Option-cases (find_child h name n.children)) [
    | inr (c, e2) ↦ add_path-Ordered mgr names c h h' o (ground arith)
    | inl e2 ↦ elim (Option-cases (mgr name)) [
      | inl e3 ↦ absurd (ground arith)
      | inr (acl, e3) ↦
          add_path-Ordered mgr names h.next (append_child h i n (new_perm_node r name acl)) h'
            (append_child-Ordered h i n name acl o e1) (ground arith)
    ]
  ]
]

build_perm_tree-Ordered :
    {r : Float64} (mgr : AclManager r) (b : Bool) (root : Name) (uris : List (List Name))
    (h h' : Heap r)
    → Ordered h
    → build_perm_tree mgr b root uris h ≡ some h'
    → Ordered h'
unfolding build_perm_tree
build_perm_tree-Ordered mgr b root [] h h' o e = subst Ordered (ground arith) o
build_perm_tree-Ordered mgr b root (uri ∷ uris) h h' o e =
    elim (Option-cases (path_below b root uri)) [
      | inl e1 ↦ build_perm_tree-Ordered mgr b root uris h h' o (ground arith)
      | inr (names, e1) ↦ elim (Option-cases (add_path mgr 0 names h)) [
        | inl e2 ↦ absurd (ground arith)
        | inr (h1, e2) ↦
            build_perm_tree-Ordered mgr b root uris h1 h' (add_path-Ordered mgr names 0 h h1 o e2)
              (ground arith)
      ]
    ]

pub build_tree-Ordered :
    {r : Float64} (mgr : AclManager r) (b : Bool) (root : Name) (acl : Option (Option (Acl r)))
    (uris : List (List Name)) (h : Heap r)
    → build_tree mgr b root acl uris ≡ some h
    → Ordered h
unfolding build_tree
build_tree-Ordered mgr b root none uris h e = absurd (ground arith)
build_tree-Ordered {r} mgr b root (some acl) uris h e =
    build_perm_tree-Ordered mgr b root uris (root_heap r root acl) h (root_heap-Ordered r root acl)
      e

-- The nodes below a list of nodes are `m` in number, counted once for every way down.
pub data Sized {r : Float64} (h : Heap r) : List ℕ → ℕ → Type 0 where
  nothing : Sized h [] 0
  one :
      (i m k : ℕ) (is : List ℕ)
      → Sized h (children_of (h.nodes i)) m
      → Sized h is k
      → Sized h (i ∷ is) (suc (m + k))

Sized-append :
    {r : Float64} (h : Heap r) (xs ys : List ℕ) (a b : ℕ)
    → Sized h xs a
    → Sized h ys b
    → Sized h (xs ++ ys) (a + b)
Sized-append h xs ys a b nothing t = subst (Sized h ys) (omega arith) t
Sized-append h xs ys a b (one i m k is s s') t =
    subst (Sized h (i ∷ (is ++ ys))) (omega arith)
      (one i m (k + b) (is ++ ys) s (Sized-append h is ys k b s' t))

-- Nodes near the end of the heap have finitely many below them.
finite :
    {r : Float64} (h : Heap r) (o : Ordered h) (fuel : ℕ) (is : List ℕ)
    → ((c : ℕ) → contains c is ≡ true → h.next ≤ c + fuel)
    → (m : ℕ) × Sized h is m
finite h o fuel [] f = (0, nothing)
finite h o zero (i ∷ is) f =
    let (k, s) = finite h o zero is (λ c hc. f c (ground arith)) in
    let none_there = o.fresh i (omega (arith, f i (ground arith))) in
    (_, one i 0 k is (subst (λ z. Sized h (children_of z) 0) (sym none_there) nothing) s)
finite h o (suc fuel) (i ∷ is) f =
    let (k, s) = finite h o (suc fuel) is (λ c hc. f c (ground arith)) in
    let (m, s') =
      finite h o fuel (children_of (h.nodes i))
        (λ c hc. omega (arith, o.child i c hc, f i (ground arith))) in
    (_, one i m k is s' s)

-- The list of a tree has an end, whatever more rounds it is given.
pub list_ends :
    {r : Float64} (h : Heap r) (m fuel : ℕ) (is : List ℕ)
    → Sized h is m
    → m ≤ fuel
    → (out : List ℕ) × (get_perm_tree_list fuel h is ≡ some out)
unfolding get_perm_tree_list
list_ends h m fuel [] s le = ([], ground arith)
list_ends h m zero (i ∷ is) (one i' a k is' s s') le = absurd (omega arith)
list_ends h m (suc fuel) (i ∷ is) (one i' a k is' s s') le =
    let (out, e) =
      list_ends h (k + a) fuel (is ++ children_of (h.nodes i)) (Sized-append h is _ k a s' s)
        (omega arith) in
    (i ∷ out, ap (listed i) e)

pub tree-Sized : {r : Float64} (h : Heap r) → Ordered h → (m : ℕ) × Sized h (0 ∷ []) m
tree-Sized h o = finite h o h.next (0 ∷ []) (λ c hc. omega arith)
