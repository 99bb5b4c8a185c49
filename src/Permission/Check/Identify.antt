-- ===== src/Permission/Check/Identify.antt =====
-- `IdentifyAccount` and `CheckContractMethodPerm` end with the verdict of the rules.
use corechain.Permission.Check.Order.{Ordered, build_tree-Ordered, list_ends, tree-Sized}
use corechain.Permission.Check.Loop.{Agrees, Agrees-keep, self-Agrees, set_other, verify_list_lem}
use corechain.Permission.Rules.{Acl, Float64, Status, is_success, not_verified, success}
use corechain.Permission.Names.{Name, NameKind, account, ak, invalid, is_account}
use corechain.Permission.Trees.{
  AclManager, Heap, PermNode, build_tree, children_of, get_perm_tree_list, listed,
}
use corechain.Permission.Check.{
  good, identify, kind_at, passed, root_passed, signers, status_of, then_with, validate_perm_tree,
  verify_list, verify_node,
}
use corechain.Permission.Check.Settled.{
  Closed, check_says, is_sound, list-Closed, listed-cases, marked, set_at, sound_as, verify_marked,
  with_status,
}
use corechain.Permission.Check.Meaning.{Passes, check_node-Passes}
use corechain.Prelude.{
  ==_iff, Bool, Bool-cases, List, Option, [], ap, arith, contains, false, fun_ext, inl, inr, none,
  not, refl, some, subst, suc, sym, true, zero, ℕ, ◌&&◌, ◌++◌, ◌+◌, ◌<◌, ◌==◌, ◌↔◌, ◌∙◌, ◌∷◌, ◌≡◌,
  ◌≢◌,
}

-- The root of the tree of a method is judged as an account.
abbrev pub judged_as_root : Bool → ℕ → Bool
judged_as_root of_account j = j == 0 && not of_account

sound_below :
    {r : Float64} (top : Bool) (n : PermNode r) → is_sound top n ≡ true → is_sound false n ≡ true
sound_below false n h = h
sound_below true n h = by_kind (is_account n.name) h
  where
    by_kind :
        (k : NameKind)
        → sound_as (kind_at true k) n.acl ≡ true
        → sound_as (kind_at false k) n.acl ≡ true
    by_kind invalid h = h
    by_kind ak h = refl
    by_kind account h = h

list-nil : {r : Float64} (h : Heap r) (fuel : ℕ) → get_perm_tree_list fuel h [] ≡ some []
unfolding get_perm_tree_list
list-nil h zero = refl
list-nil h (suc fuel) = refl

-- More rounds do not change the list.
list_more :
    {r : Float64} (h : Heap r) (fuel k : ℕ) (is out : List ℕ)
    → get_perm_tree_list fuel h is ≡ some out
    → get_perm_tree_list (fuel + k) h is ≡ some out
unfolding get_perm_tree_list
list_more h fuel k [] out e = list-nil h (fuel + k) ∙ sym (list-nil h fuel) ∙ e
list_more h zero k (i ∷ is) out e = absurd (ground arith)
list_more h (suc fuel) k (i ∷ is) out e =
    let shift : suc (fuel + k) ≡ suc fuel + k = omega arith in
    let (rest, e', same) =
      listed-cases i (get_perm_tree_list fuel h (is ++ children_of (h.nodes i))) out e in
    subst (λ z. get_perm_tree_list z h (i ∷ is) ≡ some out) shift
      (ap (listed i) (list_more h fuel k _ rest e') ∙ ap some (sym same))

list-head :
    {r : Float64} (h : Heap r) (fuel i : ℕ) (out : List ℕ)
    → get_perm_tree_list fuel h (i ∷ []) ≡ some out
    → (rest : List ℕ) × (out ≡ i ∷ rest)
unfolding get_perm_tree_list
list-head h zero i out e = absurd (ground arith)
list-head h (suc fuel) i out e =
    let (rest, e', same) =
      listed-cases i (get_perm_tree_list fuel h ([] ++ children_of (h.nodes i))) out e in
    (rest, same)

validated :
    {r : Float64} (fuel : ℕ) (of_account : Bool) (h h1 h2 : Heap r) (i : ℕ) (is : List ℕ)
    → get_perm_tree_list fuel h (0 ∷ []) ≡ some (i ∷ is)
    → verify_list is h ≡ good h1
    → verify_node (not of_account) i h1 ≡ good h2
    → validate_perm_tree fuel of_account h ≡ good (root_passed (h2.nodes i), h2)
unfolding validate_perm_tree
validated fuel of_account h h1 h2 i is e e1 e2 =
    rw (e, validate_perm_tree) (rw (e1, then_with) (rw (e2, then_with) refl))

status_in : {r : Float64} → Option (PermNode r) → Status
status_in none = not_verified
status_in (some n) = n.status

marked_self : {r : Float64} (h : Heap r) → h ≡ marked h (λ j. status_in (h.nodes j))
unfolding status_in
marked_self {r} h = ap (λ f. record { nodes = f; next = h.next }) (fun_ext (λ j. same (h.nodes j)))
  where
    same : (o : Option (PermNode r)) → o ≡ with_status o (status_in o)
    same none = refl
    same (some n) = refl

-- The last step: the root.
with_root :
    {r : Float64} (h : Heap r) (top : Bool) (is : List ℕ) (n : PermNode r)
    → Ordered h
    → h.nodes 0 ≡ some n
    → is_sound top n ≡ true
    → (st : ℕ → Status) → ((j : ℕ) → contains j is ≡ true → Agrees h st false j)
    → (st' : ℕ → Status) × (verify_node top 0 (marked h st) ≡ good (marked h st'))
      × ((j : ℕ) → contains j (0 ∷ is) ≡ true → Agrees h st' (j == 0 && top) j)
with_root h top is n o e sound st agree =
    let (b, run) = check_says top n (signers (marked h st) n.children) sound in
    (
      set_at 0 b st,
      verify_marked h st top 0 n b e run,
      λ j hj. elim (Bool-cases (j == 0)) [
        | inl eq ↦
            subst (λ z. Agrees h (set_at 0 b st) (z == 0 && top) z) (sym ((==_iff j 0).0 eq))
              (self-Agrees h top 0 st n b e run
                (λ c hc. apart 0 c (o.child 0 c (ap (λ z. contains c (children_of z)) e ∙ hc))))
        | inr ne ↦
            subst (λ t. Agrees h (set_at 0 b st) (t && top) j) (sym ne)
              (Agrees-keep h st (set_at 0 b st) false j
                (λ c hc. set_other 0 c b st (apart 0 c (omega (arith, o.child j c hc))))
                (set_other 0 j b st (ground arith)) (agree j (ground arith)))
      ],
    )
  where
    apart : (a c : ℕ) → a < c → (a == c) ≡ false
    apart a c lt = ground arith

identify_built :
    {r : Float64} (fuel : ℕ) (mgr : AclManager r) (of_account : Bool) (root : Name)
    (acl : Option (Option (Acl r))) (uris : List (List Name)) (h : Heap r)
    → build_tree mgr of_account root acl uris ≡ some h
    → identify fuel mgr of_account root acl uris ≡ passed (validate_perm_tree fuel of_account h)
unfolding identify
identify_built fuel mgr of_account root acl uris h e = rw (e, identify) refl

-- A node is left verified, and as passed just if it passes with the final statuses of its children.
abbrev pub Judged : {r : Float64} → Heap r → (ℕ → Status) → Bool → ℕ → Type 0
Judged {r} h st top j =
    (n : PermNode r)
    → h.nodes j ≡ some n
    → (st j ≢ not_verified) × ((st j ≡ success) ↔ Passes top n (signers (marked h st) n.children))

status_lem :
    (x : Status) (b : Bool) (P : Type 0)
    → x ≡ status_of b
    → (b ≡ true) ↔ P
    → (x ≢ not_verified) × ((x ≡ success) ↔ P)
status_lem x true P e (to, from) = (λ h. ground arith, (λ h. to refl, λ y. e))
status_lem x false P e (to, from) =
    (λ h. ground arith, (λ h. absurd (ground arith), λ y. absurd (false_is_not (from y))))
  where
    false_is_not : false ≡ true → ⊥
    false_is_not h = ground arith

Agrees-Judged :
    {r : Float64} (h : Heap r) (st : ℕ → Status) (top : Bool) (j : ℕ)
    → Agrees h st top j
    → Judged h st top j
Agrees-Judged h st top j a n e =
    let (b, run, own) = a n e in
    status_lem (st j) b (Passes top n (signers (marked h st) n.children)) own
      (check_node-Passes top n (signers (marked h st) n.children) b run)

-- For a tree that could be built from the answers of the manager, and in which every name is valid
-- and every access control list has a rule that is implemented: the validation ends with every node
-- given a status and nothing else changed. The nodes that it goes over are the root and, with every
-- node, its children, behind it. Each of them is left as verified, and as passed just if it passes
-- by the meaning of its rule for the final statuses of its children. `IdentifyAccount` and
-- `CheckContractMethodPerm` end, and answer whether the root has passed.
pub identify_judges_the_tree :
    {r : Float64} (mgr : AclManager r) (of_account : Bool) (root : Name)
    (acl : Option (Option (Acl r))) (uris : List (List Name)) (h : Heap r)
    → build_tree mgr of_account root acl uris ≡ some h
    → ((j : ℕ) (n : PermNode r) → h.nodes j ≡ some n → is_sound (j == 0 && not of_account) n ≡ true)
    → (m : ℕ) × (is : List ℕ) × (st : ℕ → Status) × (get_perm_tree_list m h (0 ∷ [])
        ≡ some (0 ∷ is))
      × Closed h (0 ∷ is)
      × ((j : ℕ) → contains j (0 ∷ is) ≡ true → Judged h st (j == 0 && not of_account) j)
      × ((k : ℕ)
          → (validate_perm_tree (m + k) of_account h ≡ good (is_success (st 0), marked h st))
            × (identify (m + k) mgr of_account root acl uris ≡ good (is_success (st 0))))
identify_judges_the_tree {r} mgr of_account root acl uris h built sound =
    let o = build_tree-Ordered mgr of_account root acl uris h built in
    let (m, size) = tree-Sized h o in
    let (out, ends) = list_ends h m m (0 ∷ []) size (omega arith) in
    let (is, same) = list-head h m 0 out ends in
    let ends' = ends ∙ ap some same in
    let closed = list-Closed h m (0 ∷ []) (0 ∷ is) ends' in
    let s =
      verify_list_lem h is (λ j. status_in (h.nodes j)) (closed.1)
        (λ j n e. sound_below (j == 0 && not of_account) n (sound j n e)) in
    let (n, e) = o.root in
    let (st, last, agree) = with_root h (not of_account) is n o e (sound 0 n e) s.after s.agree in
    let runs : (k : ℕ)
        → validate_perm_tree (m + k) of_account h ≡ good (is_success (st 0), marked h st) =
      λ k.
        validated (m + k) of_account h (marked h s.after) (marked h st) 0 is
          (list_more h m k (0 ∷ []) (0 ∷ is) ends') (ap (verify_list is) (marked_self h) ∙ s.runs)
          last
        ∙ ap (λ z. good (root_passed (with_status z (st 0)), marked h st)) e in
    (
      m,
      is,
      st,
      ends',
      closed,
      λ j hj. Agrees-Judged h st (j == 0 && not of_account) j (agree j hj),
      λ k. (
        runs k,
        identify_built (m + k) mgr of_account root acl uris h built ∙ ap passed (runs k),
      ),
    )
