-- ===== src/Permission/Check.antt =====
-- permission/utils.go: the validation of a tree of permissions, from the last node in breadth-first
-- order to the root.
pub mod Order
pub mod Settled
pub mod Meaning
pub mod Loop
pub mod Identify
mod Examples
use corechain.Permission.Names.{Name, NameKind, account, ak, invalid, is_account}
use corechain.Permission.Rules.{
  Acl, Float64, Model, Rule, Signer, Status, failed, is_success, null, sign_akset, sign_threshold,
  success, validate_ak_sets, validate_threshold,
}
use corechain.Permission.Trees.{AclManager, Heap, PermNode, build_tree, get_perm_tree_list, write}
use corechain.Prelude.{Bool, List, Option, [], false, none, not, some, true, ℕ, ◌∷◌}

pub data Fault : Type 0 where
  bad_name empty_pm unknown_rule not_implemented build_failed : Fault

-- The verdict on one node.
pub data Verdict : Type 0 where
  said : Bool → Verdict
  faulty : Fault → Verdict

-- `GetACLValidator` for a rule, and `Validate` of the validator.
unfoldable pub by_rule : (r : Float64) → Rule → Acl r → Model r → List Signer → Verdict
by_rule r null acl m ss = faulty unknown_rule
by_rule r sign_threshold acl m ss = said (validate_threshold r acl m ss)
by_rule r sign_akset acl m ss = said (validate_ak_sets acl.ak_sets ss)
by_rule r _ acl m ss = faulty not_implemented

-- The root of the tree of a method counts as an account, once its name has been looked at.
abbrev pub kind_at : Bool → NameKind → NameKind
kind_at true invalid = invalid
kind_at true ak = account
kind_at true account = account
kind_at false k = k

abbrev pub check_model : (r : Float64) → Acl r → Option (Model r) → List Signer → Verdict
check_model r acl none ss = faulty empty_pm
check_model r acl (some m) ss = by_rule r m.rule acl m ss

abbrev pub check_account : (r : Float64) → Option (Acl r) → List Signer → Verdict
check_account r none ss = said true
check_account r (some acl) ss = check_model r acl acl.pm ss

abbrev pub check_kind : (r : Float64) → NameKind → Option (Acl r) → List Signer → Verdict
check_kind r invalid acl ss = faulty bad_name
check_kind r ak acl ss = said true
check_kind r account acl ss = check_account r acl ss

unfoldable pub check_node : {r : Float64} → Bool → PermNode r → List Signer → Verdict
check_node {r} top n ss = check_kind r (kind_at top (is_account n.name)) n.acl ss

abbrev pub signers : {r : Float64} → Heap r → List ℕ → List Signer
signers h [] = []
signers h (c ∷ cs) = elim (h.nodes c) [
  | none ↦ signers h cs
  | some n ↦ (n.name, n.status) ∷ signers h cs
]

abbrev pub status_of : Bool → Status
status_of true = success
status_of false = failed

-- The result of a validation; `out_of_rounds` stands for a list of nodes that was not completed.
pub data Result {ℓ} (A : Type ℓ) : Type ℓ where
  good : A → Result A
  bad : Fault → Result A
  out_of_rounds : Result A

abbrev pub then_with {ℓ κ} : {A : Type ℓ} {B : Type κ} → Result A → (A → Result B) → Result B
then_with (good a) f = f a
then_with (bad e) f = bad e
then_with out_of_rounds f = out_of_rounds

abbrev pub set_status : {r : Float64} → ℕ → PermNode r → Heap r → Verdict → Result (Heap r)
set_status i n h (said b) = good (write i (record n { status = status_of b }) h)
set_status i n h (faulty e) = bad e

-- The body of the loop of `validatePermTree`.
unfoldable pub verify_node : {r : Float64} → Bool → ℕ → Heap r → Result (Heap r)
verify_node top i h = elim (h.nodes i) [
  | none ↦ good h
  | some n ↦ set_status i n h (check_node top n (signers h n.children))
]

-- The loop over the nodes behind the root, the last one first.
unfoldable pub verify_list : {r : Float64} → List ℕ → Heap r → Result (Heap r)
verify_list [] h = good h
verify_list (i ∷ is) h = then_with (verify_list is h) (verify_node false i)

abbrev pub root_passed : {r : Float64} → Option (PermNode r) → Bool
root_passed none = false
root_passed (some n) = is_success n.status

-- `validatePermTree`; the root has address 0.
unfoldable pub validate_perm_tree : {r : Float64} → ℕ → Bool → Heap r → Result (Bool × Heap r)
validate_perm_tree fuel of_account h = elim (get_perm_tree_list fuel h (0 ∷ [])) [
  | none ↦ out_of_rounds
  | some [] ↦ good (false, h)
  | some (i ∷ is) ↦ then_with (verify_list is h) (λ h1.
      then_with (verify_node (not of_account) i h1) (λ h2. good (root_passed (h2.nodes i), h2)))
]

abbrev pub passed : {r : Float64} → Result (Bool × Heap r) → Result Bool
passed (good (b, h)) = good b
passed (bad e) = bad e
passed out_of_rounds = out_of_rounds

-- `IdentifyAccount` for `of_account`, and `CheckContractMethodPerm` otherwise, with the manager's
-- answer for the root.
unfoldable pub identify :
    {r : Float64}
    → ℕ
    → AclManager r
    → Bool
    → Name
    → Option (Option (Acl r))
    → List (List Name)
    → Result Bool
identify fuel mgr of_account root acl uris = elim (build_tree mgr of_account root acl uris) [
  | none ↦ bad build_failed
  | some h ↦ passed (validate_perm_tree fuel of_account h)
]
