-- ===== src/Permission/Check/Examples.antt =====
-- The permissions of an account with two signers, of which two thirds of the weight must sign.
use corechain.Permission.Check.Settled.{Closed, is_sound, marked}
use corechain.Permission.Check.Identify.{Judged, identify_judges_the_tree}
use corechain.Permission.Names.{Name, is_account, valid_raw_account}
use corechain.Permission.Rules.{
  Acl, Float64, Status, find_weight_in_acl, is_success, not_verified, sign_threshold,
  validate_threshold, weight_sum,
}
use corechain.Permission.Trees.{
  AclManager, Heap, PermNode, add_path, build_perm_tree, build_tree, find_child, get_perm_tree_list,
  path_below,
}
use corechain.Permission.Check.{
  by_rule, check_node, good, identify, validate_perm_tree, verify_list, verify_node,
}
use corechain.Prelude.{
  List, Option, [], ap, arith, contains, false, leb, none, not, refl, some, subst, suc, true, zero,
  ℕ, ◌&&◌, ◌+◌, ◌==◌, ◌∷◌, ◌≡◌,
}

abbrev floats : Float64
floats = record { F = ℕ; zero_weight = 0; plus = λ a b. a + b; at_least = λ a b. leb b a }

abbrev alice : Name
alice = 97 ∷ []

abbrev bob : Name
bob = 98 ∷ []

-- `XC1111111111111111@x`
abbrev shared : Name
shared =
    88 ∷ 67 ∷ 49 ∷ 49 ∷ 49 ∷ 49 ∷ 49 ∷ 49 ∷ 49 ∷ 49 ∷ 49 ∷ 49 ∷ 49 ∷ 49 ∷ 49 ∷ 49 ∷ 49 ∷ 49 ∷ 64
    ∷ 120 ∷ []

abbrev acl : Acl floats
acl = record {
  pm = some (record { rule = sign_threshold; accept_value = 2 });
  aks_weight = some ((alice, 1) ∷ (bob, 2) ∷ []);
  ak_sets = none;
}

-- The manager knows no list of its own for a signer.
abbrev mgr : AclManager floats
mgr name = some none

abbrev uris : List (List Name)
uris = (shared ∷ alice ∷ []) ∷ (shared ∷ bob ∷ []) ∷ []

-- With both signers the account passes, and with alice alone it does not.
both_pass : identify 5 mgr true shared (some (some acl)) uris ≡ good true
unfolding identify build_tree build_perm_tree add_path find_child path_below get_perm_tree_list
    validate_perm_tree verify_list verify_node check_node is_account valid_raw_account by_rule
    validate_threshold weight_sum find_weight_in_acl
both_pass = refl

alice_fails : identify 5 mgr true shared (some (some acl)) ((shared ∷ alice ∷ []) ∷ []) ≡ good false
unfolding identify build_tree build_perm_tree add_path find_child path_below get_perm_tree_list
    validate_perm_tree verify_list verify_node check_node is_account valid_raw_account by_rule
    validate_threshold weight_sum find_weight_in_acl
alice_fails = refl

abbrev signed : List (List Name)
signed = (shared ∷ bob ∷ []) ∷ []

abbrev or_empty : Option (Heap floats) → Heap floats
or_empty none = record { nodes = λ j. none; next = 0 }
or_empty (some h) = h

abbrev heap : Heap floats
heap = or_empty (build_tree mgr true shared (some (some acl)) signed)

heap_built : build_tree mgr true shared (some (some acl)) signed ≡ some heap
unfolding build_tree build_perm_tree add_path find_child path_below
heap_built = refl

abbrev some_node : Option (PermNode floats) → PermNode floats
some_node none = record { name = []; acl = none; status = not_verified; children = [] }
some_node (some n) = n

heap_sound :
    (j : ℕ) (n : PermNode floats) → heap.nodes j ≡ some n → is_sound (j == 0 && not true) n ≡ true
unfolding build_tree build_perm_tree add_path find_child path_below is_account valid_raw_account
heap_sound zero n e =
    let same : some_node (heap.nodes 0) ≡ n = ap some_node e in
    subst (λ z. is_sound false z ≡ true) same refl
heap_sound (suc zero) n e =
    let same : some_node (heap.nodes 1) ≡ n = ap some_node e in
    subst (λ z. is_sound false z ≡ true) same refl
heap_sound (suc (suc j)) n e = absurd (ground arith)

identify_judges_the_tree_example :
    (m : ℕ) × (is : List ℕ) × (st : ℕ → Status) × (get_perm_tree_list m heap (0 ∷ [])
      ≡ some (0 ∷ is))
    × Closed heap (0 ∷ is)
    × ((j : ℕ) → contains j (0 ∷ is) ≡ true → Judged heap st (j == 0 && not true) j)
    × ((k : ℕ)
        → (validate_perm_tree (m + k) true heap ≡ good (is_success (st 0), marked heap st))
          × (identify (m + k) mgr true shared (some (some acl)) signed ≡ good (is_success (st 0))))
identify_judges_the_tree_example =
    identify_judges_the_tree mgr true shared (some (some acl)) signed heap heap_built heap_sound
